-- ===== src/Runtime/Memory/Oldest.antt =====
-- src/runtime.rs: which entry `least_recent` names.
use mathlib.Core.Path.{subst}
use wasm_runtime.Base.{
  ◌≤◌, ◌≡◌, refl, sym, none, some, [], ◌∷◌, Bytes, All, arith, Bool-cases, ◌⊎◌, inl, inr,
}
use wasm_runtime.Base.Maps.{HashMap, get, Distinct, equal_iff, All-get}
use wasm_runtime.Runtime.Memory.{CacheEntry, older, elder, least_from, least_recent}

module _ {T : Type 0} where
  elder-cases : (e best : Bytes × CacheEntry T) → (elder e best ≡ e) ⊎ (elder e best ≡ best)
  unfolding elder
  elder-cases e best = elim (Bool-cases (older e best)) [
    | inl new ↦ inl (rw new refl)
    | inr old ↦ inr (rw old refl)
  ]

  elder_le :
      (e best : Bytes × CacheEntry T)
      → ((elder e best).1.last_used ≤ e.1.last_used)
        × ((elder e best).1.last_used ≤ best.1.last_used)
  unfolding elder
  elder_le (i, a) (j, b) = ground arith

  -- What holds of all entries holds of the one that is found.
  pub least_from-All {κ} :
      (P : Bytes × CacheEntry T → Type κ) (best : Bytes × CacheEntry T) (m : HashMap (CacheEntry T))
      → P best
      → All P m
      → P (least_from best m)
  unfolding least_from
  least_from-All P best [] p h = p
  least_from-All P best (e ∷ m) p h =
      least_from-All P (elder e best) m
        (elim (elder-cases e best) [
          | inl new ↦ subst P (sym new) h.0
          | inr old ↦ subst P (sym old) p
        ])
        h.1

  get-kept :
      (k i : Bytes) (v w : CacheEntry T) (m : HashMap (CacheEntry T)) (r : Bytes × CacheEntry T)
      → Distinct ((k, v) ∷ (i, w) ∷ m)
      → get r.0 ((k, v) ∷ m) ≡ some r.1
      → get r.0 ((k, v) ∷ (i, w) ∷ m) ≡ some r.1
  unfolding get
  get-kept k i v w m r d h = ground (arith, equal_iff k r.0, equal_iff i r.0, equal_iff i k)

  get-tail :
      (k : Bytes) (v : CacheEntry T) (m : HashMap (CacheEntry T)) (r : Bytes × CacheEntry T)
      → Distinct ((k, v) ∷ m)
      → get r.0 m ≡ some r.1
      → get r.0 ((k, v) ∷ m) ≡ some r.1
  unfolding get
  get-tail k v m r d h = ground (arith, equal_iff k r.0)

  get-absent :
      (k i : Bytes) (w : CacheEntry T) (m : HashMap (CacheEntry T))
      → get k ((i, w) ∷ m) ≡ none
      → get k m ≡ none
  unfolding get
  get-absent k i w m h = ground arith

  -- The entry that is found is stored under its key.
  get-least_from :
      (best : Bytes × CacheEntry T) (m : HashMap (CacheEntry T))
      → Distinct (best ∷ m)
      → get (least_from best m).0 (best ∷ m) ≡ some (least_from best m).1
  unfolding least_from
  get-least_from (k, v) [] d = unfold get in rw ((equal_iff k k).1 refl) refl
  get-least_from (k, v) ((i, w) ∷ m) d =
      let Found = λ (b : Bytes × CacheEntry T).
        get (least_from b m).0 ((k, v) ∷ (i, w) ∷ m) ≡ some (least_from b m).1 in
      elim (elder-cases (i, w) (k, v)) [
        | inl new ↦
            subst Found (sym new)
              (get-tail k v ((i, w) ∷ m) (least_from (i, w) m) d (get-least_from (i, w) m d.1))
        | inr old ↦ subst Found (sym old) (
            get-kept k i v w m (least_from (k, v) m) d
              (get-least_from (k, v) m (get-absent k i w m d.0, d.1.1)))
      ]

  -- No entry was used before the one that is found.
  least_from_le :
      (best : Bytes × CacheEntry T) (m : HashMap (CacheEntry T))
      → All (λ e. (least_from best m).1.last_used ≤ e.1.last_used) (best ∷ m)
  unfolding least_from
  least_from_le best [] = (omega arith, tt)
  least_from_le best (e ∷ m) =
      let ih = least_from_le (elder e best) m in
      (omega (arith, elder_le e best, ih.0), (omega (arith, elder_le e best, ih.0), ih.1))

  -- `least_recent` names a stored entry that was used no later than any other.
  pub least_recent_lem :
      (m : HashMap (CacheEntry T)) (key : Bytes)
      → Distinct m
      → least_recent m ≡ some key
      → (oldest : CacheEntry T) × (get key m ≡ some oldest)
        × ((j : Bytes) (e : CacheEntry T) → get j m ≡ some e → oldest.last_used ≤ e.last_used)
  unfolding least_recent
  least_recent_lem [] key d h = cc
  least_recent_lem (b ∷ m) key d h = (
    (least_from b m).1,
    subst (λ k. get k (b ∷ m) ≡ some (least_from b m).1) (cc) (get-least_from b m d),
    λ j e found.
        All-get (λ x. (least_from b m).1.last_used ≤ x.last_used) j e (b ∷ m) (least_from_le b m)
          found,
  )
