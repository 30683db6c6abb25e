-- ===== src/Memory/Access.antt =====
-- Loads after saves.
use jacks.Prelude.{ℕ, ◌≡◌, ◌≢◌, refl, ap, Option, none, some, arith, ◌≤◌, ◌⊎◌, inl, inr, ℕ_discrete}
use jacks.Memory.{Fault, ok, fault, Ptr, Store, update, load, save, alloc, release}

fault≢ok {ℓ} : {A : Type ℓ} {e : Fault} {a : A} → fault e ≢ ok a
fault≢ok h = cc

module _ {ℓ} {A : Type ℓ} where
  pub update_self : (f : ℕ → Option A) (p : ℕ) (v : Option A) → update f p v p ≡ v
  update_self f p v = ground arith

  pub update_ne : (f : ℕ → Option A) (p q : ℕ) (v : Option A) → p ≢ q → update f p v q ≡ f q
  update_ne f p q v h = ground arith

  -- An object lives at a pointer.
  abbrev pub IsAt : Store A → Ptr → A → Type ℓ
  IsAt m p a = load m p ≡ ok a

  -- The store after `*p = a`.
  abbrev pub saved : Store A → Ptr → A → Store A
  saved m none a = m
  saved m (some p) a = record m { cell = update m.cell p (some a) }

  pub save_lem : (m : Store A) (p : Ptr) (a b : A) → IsAt m p a → save m p b ≡ ok (saved m p b)
  unfolding save
  save_lem m none a b h = cc
  save_lem m (some p) a b h = rw h

  pub load-saved : (m : Store A) (p : Ptr) (a b : A) → IsAt m p a → IsAt (saved m p b) p b
  load-saved m none a b h = cc
  load-saved m (some p) a b h = rw (update_self m.cell p (some b))

  -- A save elsewhere, or at the same place.
  pub load-saved_cases :
      (m : Store A) (p q : Ptr) (a b c : A)
      → IsAt m p a
      → IsAt m q c
      → (d : A) × IsAt (saved m p b) q d × ((d ≡ c) ⊎ (d ≡ b))
  load-saved_cases m none q a b c h k = (c, k, inl refl)
  load-saved_cases m (some p) none a b c h k = cc
  load-saved_cases m (some p) (some q) a b c h k = elim (ℕ_discrete p q) [
    | yes e ↦ (b, rw (← e) (rw (update_self m.cell p (some b))), inr refl)
    | no e ↦ (c, rw (update_ne m.cell p q (some b) e) k, inl refl)
  ]

  -- The store after `free(p)`.
  abbrev pub released : Store A → Ptr → Store A
  released m none = m
  released m (some p) = record m { cell = update m.cell p none }

  pub release_lem : (m : Store A) (p : Ptr) (a : A) → IsAt m p a → release m p ≡ ok (released m p)
  unfolding release
  release_lem m none a h = cc
  release_lem m (some p) a h = rw h

  -- What was freed is gone, and freeing it again is a fault.
  pub release_twice :
      (m : Store A) (p : Ptr) (a : A)
      → IsAt m p a
      → (load (released m p) p ≡ fault Fault.dangling_pointer)
        × (release (released m p) p ≡ fault Fault.dangling_pointer)
  unfolding release
  release_twice m none a h = cc
  release_twice m (some p) a h = rw (update_self m.cell p none) (refl, refl)

  pub load-released_ne :
      (m : Store A) (p q : Ptr) (b : A) → p ≢ q → IsAt m q b → IsAt (released m p) q b
  load-released_ne m none q b ne h = h
  load-released_ne m (some p) none b ne h = cc
  load-released_ne m (some p) (some q) b ne h =
      rw (update_ne m.cell p q none (λ e. ne (ap some e))) h

  -- No object lives at an address that is still to be handed out.
  abbrev pub IsFresh : Store A → Type ℓ
  IsFresh m = (k : ℕ) → m.fresh ≤ k → m.cell k ≡ none

  pub alloc-IsFresh : (m : Store A) (a : A) → IsFresh m → IsFresh (alloc m (some a)).1
  alloc-IsFresh m a f k h = ground (arith, f k)

  pub load-alloc :
      (m : Store A) (a b : A) (p : Ptr) → IsFresh m → IsAt m p b → IsAt (alloc m (some a)).1 p b
  load-alloc m a b none f h = cc
  load-alloc m a b (some p) f h = elim (ℕ_discrete m.fresh p) [
    | yes e ↦ let gone : m.cell p ≡ none = f p (omega arith) in absurd (fault≢ok (rw gone at h))
    | no ne ↦ rw (update_ne m.cell m.fresh p (some a) ne) h
  ]

  pub load-alloc_self : (m : Store A) (a : A) → IsAt (alloc m (some a)).1 (some m.fresh) a
  load-alloc_self m a = rw (update_self m.cell m.fresh (some a))
