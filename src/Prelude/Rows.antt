-- ===== src/Prelude/Rows.antt =====
-- A table whose rows have a number for their key.
use Prim.Native.Nat.{ℕ}
use mathlib.Core.Bool.{Bool}
use mathlib.Core.List.{List, [], ◌∷◌}
use mathlib.Core.Option.{Option, none, some}
use mathlib.Core.Path.{◌≡◌, refl}
use native.Mathlib.Omega.{arith}
use marcus.Prelude.Tests.{if◌then◌else◌, nat_beq, nat_beq_iff}

-- A row that a test singles out is rewritten.
abbrev pub set_when {ℓ} : {A : Type ℓ} → Bool → (A → A) → Option A → Option A
set_when b f none = none
set_when b f (some r) = some (if b then f r else r)

module _ {ℓ} {A : Type ℓ} (key : A → ℕ) where
  unfoldable pub find : ℕ → List A → Option A
  find k [] = none
  find k (r ∷ t) = if nat_beq (key r) k then some r else find k t

  -- UPDATE … WHERE key = k
  unfoldable pub update : ℕ → (A → A) → List A → List A
  update k f [] = []
  update k f (r ∷ t) = if nat_beq (key r) k then f r ∷ update k f t else r ∷ update k f t

  pub find-update :
      (k j : ℕ) (f : A → A) (t : List A)
      → ((r : A) → key r ≡ k → key (f r) ≡ k)
      → find j (update k f t) ≡ set_when (nat_beq j k) f (find j t)
  unfolding find update
  find-update k j f [] keeps = refl
  find-update k j f (r ∷ t) keeps = ground (
    arith,
    find-update k j f t keeps,
    keeps r,
    nat_beq_iff (key r) k,
    nat_beq_iff (key r) j,
    nat_beq_iff j k,
  )

  pub find-key : (k : ℕ) (t : List A) (r : A) → find k t ≡ some r → key r ≡ k
  unfolding find
  find-key k [] r h = ground (arith, h)
  find-key k (x ∷ t) r h = ground (arith, h, find-key k t r, nat_beq_iff (key x) k)
