-- ===== src/Executions/Rows.antt =====
-- How the rows of the execution table are found again after an insert or a save.
use marcus.Prelude.{
  Bool-cases, ◌==◌, ==-true, ==_refl, ◌≡◌, refl, ◌≢◌, inl, inr, some, List, [], ◌∷◌, arith, nat_eq,
}
use marcus.Executions.{ToolExecution, same_key_iff, get_existing, Key, save_execution, key_eq}

pub key-get_existing :
    (k : Key) (e : ToolExecution) (rows : List ToolExecution)
    → get_existing k rows ≡ some e
    → e.key ≡ k
unfolding get_existing
key-get_existing k e [] h = cc
key-get_existing k e (x ∷ rows) h = elim (Bool-cases (x.key == k)) [
  | inl hit ↦ ==-true e.key k (ground (arith, hit))
  | inr miss ↦ key-get_existing k e rows (ground (arith, miss))
]

pub get_existing-add_self :
    (e : ToolExecution) (rows : List ToolExecution) → get_existing e.key (e ∷ rows) ≡ some e
unfolding get_existing
get_existing-add_self e rows = rw (==_refl e.key)

pub get_existing-add_ne :
    (j : Key) (e : ToolExecution) (rows : List ToolExecution)
    → e.key ≢ j
    → get_existing j (e ∷ rows) ≡ get_existing j rows
unfolding get_existing
get_existing-add_ne j e rows ne = ground (arith, ==-true e.key j)

pub get_existing-save_self :
    (e x : ToolExecution) (rows : List ToolExecution)
    → get_existing e.key rows ≡ some x
    → get_existing e.key (save_execution e rows) ≡ some e
unfolding get_existing save_execution
get_existing-save_self e x [] h = cc
get_existing-save_self e x (y ∷ rows) h =
    ground (arith, ==_refl e.key, get_existing-save_self e x rows)

pub get_existing-save_ne :
    (j : Key) (e : ToolExecution) (rows : List ToolExecution)
    → e.key ≢ j
    → get_existing j (save_execution e rows) ≡ get_existing j rows
unfolding get_existing save_execution
get_existing-save_ne j e [] ne = refl
get_existing-save_ne j e (y ∷ rows) ne = ground (
  arith,
  same_key_iff y.key e.key,
  same_key_iff e.key j,
  same_key_iff y.key j,
  get_existing-save_ne j e rows ne,
)
