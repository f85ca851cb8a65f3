-- ===== src/Js/Index/Laws.antt =====
-- Laws of objects with index keys.
use workload_simulator.Prelude.{
  ℕ, suc, ◌≤◌, ◌<◌, ◌≡◌, refl, none, some, List, [], ◌∷◌, ◌++◌, ◌==◌, if◌then◌else◌, arith, ◌∙◌,
  ==_self,
}
use workload_simulator.Js.Index.{put, find, remove, map_values, Ascending, Below}

module _ {ℓ} {V : Type ℓ} where
  -- A key above all the others goes to the end.
  pub put-above : (k : ℕ) (v : V) (m : List (ℕ × V)) → Below k m → put k v m ≡ m ++ (k, v) ∷ []
  unfolding put
  put-above k v [] h = refl
  put-above k v ((j, w) ∷ m) h = ground (arith, put-above k v m)

  pub find-put :
      (k j : ℕ) (v : V) (m : List (ℕ × V))
      → find j (put k v m) ≡ (if j == k then some v else find j m)
  unfolding put find
  find-put k j v [] = refl
  find-put k j v ((i, w) ∷ m) = ground (arith, find-put k j v m)

  pub find-put_self : (k : ℕ) (v : V) (m : List (ℕ × V)) → find k (put k v m) ≡ some v
  find-put_self k v m = find-put k k v m ∙ rw (==_self k)

  pub put-put : (k : ℕ) (u v : V) (m : List (ℕ × V)) → put k v (put k u m) ≡ put k v m
  unfolding put
  put-put k u v [] = ground arith
  put-put k u v ((j, w) ∷ m) = ground (arith, put-put k u v m)

  pub Below-weaken : {a b : ℕ} (m : List (ℕ × V)) → a ≤ b → Below a m → Below b m
  Below-weaken [] h b = tt
  Below-weaken (_ ∷ m) h b = (omega arith, Below-weaken m h b.1)

  pub Ascending-weaken : {a b : ℕ} (m : List (ℕ × V)) → a ≤ b → Ascending b m → Ascending a m
  Ascending-weaken [] h b = tt
  Ascending-weaken (_ ∷ m) h b = (omega arith, b.1)

  pub Below-append :
      (hi k : ℕ) (v : V) (m : List (ℕ × V)) → k < hi → Below hi m → Below hi (m ++ (k, v) ∷ [])
  Below-append hi k v [] h b = (h, tt)
  Below-append hi k v (_ ∷ m) h b = (b.0, Below-append hi k v m h b.1)

  pub Ascending-append :
      (lo k : ℕ) (v : V) (m : List (ℕ × V))
      → lo ≤ k
      → Below k m
      → Ascending lo m
      → Ascending lo (m ++ (k, v) ∷ [])
  Ascending-append lo k v [] h b a = (h, tt)
  Ascending-append lo k v ((i, w) ∷ m) h b a = (a.0, Ascending-append (suc i) k v m b.0 b.1 a.1)

  pub Below-remove : (hi k : ℕ) (m : List (ℕ × V)) → Below hi m → Below hi (remove k m)
  unfolding remove
  Below-remove hi k [] b = tt
  Below-remove hi k ((j, w) ∷ m) b = ground (arith, Below-remove hi k m b.1)

  pub Ascending-remove : (lo k : ℕ) (m : List (ℕ × V)) → Ascending lo m → Ascending lo (remove k m)
  unfolding remove
  Ascending-remove lo k [] b = tt
  Ascending-remove lo k ((j, w) ∷ m) b =
      ground (arith, Ascending-remove (suc j) k m b.1, Ascending-weaken {a = lo} {b = suc j} m)

  pub find-below : (lo k : ℕ) (m : List (ℕ × V)) → k < lo → Ascending lo m → find k m ≡ none
  unfolding find
  find-below lo k [] h a = refl
  find-below lo k ((i, w) ∷ m) h a = ground (arith, find-below (suc i) k m)

  -- Where the keys ascend, a removed key is gone and the others keep their values.
  pub find-remove :
      (lo k j : ℕ) (m : List (ℕ × V))
      → Ascending lo m
      → find j (remove k m) ≡ (if j == k then none else find j m)
  unfolding remove find
  find-remove lo k j [] a = ground arith
  find-remove lo k j ((i, w) ∷ m) a =
      ground (arith, find-remove (suc i) k j m, find-below (suc i) k m)

  pub Below-put : (hi k : ℕ) (v : V) (m : List (ℕ × V)) → k < hi → Below hi m → Below hi (put k v m)
  unfolding put
  Below-put hi k v [] h b = (h, tt)
  Below-put hi k v ((j, w) ∷ m) h b = ground (arith, Below-put hi k v m h b.1)

  pub Ascending-put :
      (lo k : ℕ) (v : V) (m : List (ℕ × V)) → lo ≤ k → Ascending lo m → Ascending lo (put k v m)
  unfolding put
  Ascending-put lo k v [] h a = (h, tt)
  Ascending-put lo k v ((j, w) ∷ m) h a = ground (arith, Ascending-put (suc j) k v m)

  pub Below-find : (hi k : ℕ) (v : V) (m : List (ℕ × V)) → Below hi m → find k m ≡ some v → k < hi
  unfolding find
  Below-find hi k v [] b e = cc
  Below-find hi k v ((j, w) ∷ m) b e = ground (arith, Below-find hi k v m b.1)

module _ {ℓ κ} {V : Type ℓ} {W : Type κ} (f : V → W) where
  pub Below-map_values : (hi : ℕ) (m : List (ℕ × V)) → Below hi m → Below hi (map_values f m)
  unfolding map_values
  Below-map_values hi [] b = tt
  Below-map_values hi (_ ∷ m) b = (b.0, Below-map_values hi m b.1)

  pub Ascending-map_values :
      (lo : ℕ) (m : List (ℕ × V)) → Ascending lo m → Ascending lo (map_values f m)
  unfolding map_values
  Ascending-map_values lo [] a = tt
  Ascending-map_values lo ((j, w) ∷ m) a = (a.0, Ascending-map_values (suc j) m a.1)
