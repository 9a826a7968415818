-- ===== src/Recovery/Replication.antt =====
-- What recovery guarantees of the nodes' answers.
use folio.Base.{ℕ, ◌≤◌, ◌≡◌, String, List, [], ◌∷◌, arith, All}
use folio.Error.{Result, ok, bind_ok}
use folio.Recovery.{fence_all}

-- The node answered, and not above `top`.
abbrev pub Answered : (String → ℕ → Result ℕ) → ℕ → ℕ → String → Type 0
Answered fence ledger_id top n = (lac : ℕ) × (fence n ledger_id ≡ ok lac) × (lac ≤ top)

fence_all_within :
    (fence : String → ℕ → Result ℕ) (ledger_id top : ℕ) (nodes : List String)
    → fence_all fence ledger_id nodes ≡ ok top
    → (bound : ℕ) → top ≤ bound
    → All (Answered fence ledger_id bound) nodes
unfolding fence_all
fence_all_within fence ledger_id top [] h bound le = tt
fence_all_within fence ledger_id top (n ∷ ns) h bound le =
    let (lac, answer, r) = bind_ok (fence n ledger_id) _ h in
    let (rest, others, done) = bind_ok (fence_all fence ledger_id ns) _ r in
    (
      (lac, answer, ground arith),
      fence_all_within fence ledger_id rest ns others bound (ground arith),
    )

-- When the fencing of an ensemble succeeds, every node of it answered, and no answer is above the
-- result.
pub fence_all-Answered :
    (fence : String → ℕ → Result ℕ) (ledger_id top : ℕ) (nodes : List String)
    → fence_all fence ledger_id nodes ≡ ok top
    → All (Answered fence ledger_id top) nodes
fence_all-Answered fence ledger_id top nodes h =
    fence_all_within fence ledger_id top nodes h top (omega arith)
