-- ===== src/Registry/Laws.antt =====
-- Laws of the widget map: every widget is filed under its own id.
use workload_simulator.Prelude.{ℕ, suc, ◌≡◌, refl, ap, some, List, [], ◌∷◌, ◌++◌, arith}
use workload_simulator.Js.Index.{put, find, remove, map_values, Ascending}
use workload_simulator.Js.Index.Laws.{find-below}
use workload_simulator.Widget.{Editor, Widget}
use workload_simulator.Registry.{detach}

-- The widget under the key `k` carries that id, on its close button too, and has its editor.
pub record Owns (k : ℕ) (w : Widget) : Type 0 where
  pub own_id : w.query_id ≡ k
  pub own_close : w.close_id ≡ k
  pub has_editor : (e : Editor) × (w.codemirror ≡ some e)

abbrev pub Owned : List (ℕ × Widget) → Type 0
Owned [] = Unit
Owned ((k, w) ∷ m) = Owns k w × Owned m

abbrev pub keys {ℓ} : {V : Type ℓ} → List (ℕ × V) → List ℕ
keys [] = []
keys ((k, _) ∷ m) = k ∷ keys m

pub Owned-put :
    (k : ℕ) (w : Widget) (m : List (ℕ × Widget)) → Owns k w → Owned m → Owned (put k w m)
unfolding put
Owned-put k w [] h o = (h, tt)
Owned-put k w ((j, u) ∷ m) h o = ground (arith, Owned-put k w m h o.1)

pub Owned-remove : (k : ℕ) (m : List (ℕ × Widget)) → Owned m → Owned (remove k m)
unfolding remove
Owned-remove k [] o = tt
Owned-remove k ((j, u) ∷ m) o = ground (arith, Owned-remove k m o.1)

pub Owned-map_values :
    (f : Widget → Widget) (m : List (ℕ × Widget))
    → ((k : ℕ) (w : Widget) → Owns k w → Owns k (f w))
    → Owned m
    → Owned (map_values f m)
unfolding map_values
Owned-map_values f [] h o = tt
Owned-map_values f ((k, w) ∷ m) h o = (h k w o.0, Owned-map_values f m h o.1)

pub Owns-find :
    (k : ℕ) (w : Widget) (m : List (ℕ × Widget)) → Owned m → find k m ≡ some w → Owns k w
unfolding find
Owns-find k w [] o e = cc
Owns-find k w ((j, u) ∷ m) o e = ground (arith, Owns-find k w m o.1)

pub keys-append {ℓ} :
    {V : Type ℓ} (k : ℕ) (v : V) (m : List (ℕ × V)) → keys (m ++ (k, v) ∷ []) ≡ keys m ++ k ∷ []
keys-append k v [] = refl
keys-append k v ((j, u) ∷ m) = ap (j ∷◌) (keys-append k v m)

pub keys-remove {ℓ} :
    {V : Type ℓ} (k : ℕ) (m : List (ℕ × V)) → keys (remove k m) ≡ detach k (keys m)
unfolding remove detach
keys-remove k [] = refl
keys-remove k ((j, u) ∷ m) = ground (arith, keys-remove k m)

pub keys-map_values {ℓ κ} :
    {V : Type ℓ} {W : Type κ} (f : V → W) (m : List (ℕ × V)) → keys (map_values f m) ≡ keys m
unfolding map_values
keys-map_values f [] = refl
keys-map_values f ((j, u) ∷ m) = ap (j ∷◌) (keys-map_values f m)

-- A value put under a key that is there leaves the keys as they are.
pub keys-put {ℓ} :
    {V : Type ℓ} (lo k : ℕ) {u : V} (v : V) (m : List (ℕ × V))
    → Ascending lo m
    → find k m ≡ some u
    → keys (put k v m) ≡ keys m
unfolding put find
keys-put lo k v [] a e = cc
keys-put {V} lo k {u} v ((j, w) ∷ m) a e =
    ground (arith, keys-put (suc j) k {u = u} v m, find-below (suc j) k m)
