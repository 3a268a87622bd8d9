-- ===== src/Scheduler/Sandbox.antt =====
-- internal/usecase/workflows/usecase.go: allowedSandbox, the sandbox that a step gets in a workspace.
use onecatch.Base.{
  ℕ, ◌≤◌, String, ltb, Option, none, some, if◌then◌else◌, ◌==◌, ◌≡◌, refl, inl, inr, arith,
  Bool-cases, String_discrete,
}

abbrev pub workspace_write : String
workspace_write = "workspace-write"

-- `rank[name]`
unfoldable pub rank : String → Option ℕ
rank name =
    if name == "read-only"
    then some 0
    else if name == workspace_write
    then some 1
    else if name == "full"
    then some 2
    else none

abbrev pub or_else : String → String → String
or_else name default = if name == "" then default else name

-- A name that has no rank counts as `workspace-write`.
unfoldable pub ranked_as : String → Option ℕ → String × ℕ
ranked_as name (some n) = (name, n)
ranked_as name none = (workspace_write, 1)

abbrev pub ranked : String → String × ℕ
ranked name = ranked_as name (rank name)

unfoldable pub allowed_sandbox : String → String → String
allowed_sandbox requested maximum =
    let most = or_else maximum workspace_write in
    let wanted = or_else requested most in
    if ltb (ranked most).1 (ranked wanted).1 then (ranked most).0 else (ranked wanted).0

abbrev pub rank_of : String → ℕ
rank_of name = (ranked name).1

rank-workspace_write : rank workspace_write ≡ some 1
unfolding rank String_discrete
rank-workspace_write = refl

-- What a name without rank counts as has the rank of the name.
ranked_as_lem :
    (name : String) (o : Option ℕ)
    → rank name ≡ o
    → rank (ranked_as name o).0 ≡ some (ranked_as name o).1
unfolding ranked_as
ranked_as_lem name (some n) found = found
ranked_as_lem name none missing = rank-workspace_write

rank-ranked : (name : String) → rank (ranked name).0 ≡ some (rank_of name)
rank-ranked name = ranked_as_lem name (rank name) refl

-- The sandbox that a step gets is one of the three, and is no wider than that of its workspace nor than
-- the one it asks for, where an empty name asks for the workspace's.
pub allowed_sandbox_is_within :
    (requested maximum : String)
    → (n : ℕ) × (rank (allowed_sandbox requested maximum) ≡ some n)
      × (n ≤ rank_of (or_else maximum workspace_write))
      × (n ≤ rank_of (or_else requested (or_else maximum workspace_write)))
unfolding allowed_sandbox
allowed_sandbox_is_within requested maximum =
    let most = or_else maximum workspace_write in
    let wanted = or_else requested most in
    elim (Bool-cases (ltb (rank_of most) (rank_of wanted))) [
      | inl wide ↦ rw wide (rank_of most, rank-ranked most, ground arith, ground (arith, wide))
      | inr narrow ↦
          rw narrow (rank_of wanted, rank-ranked wanted, ground (arith, narrow), ground arith)
    ]
