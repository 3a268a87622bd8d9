-- ===== src/RunStore/Writes.antt =====
-- What an accepted write of a run does to the store, and that it is the scheduler's repository.
use onecatch.Base.{
  ℕ, suc, String, Bool, true, false, not, ◌||◌, Option, none, some, ltb, eqb, if◌then◌else◌, ◌==◌,
  ◌≡◌, ◌≢◌, ◌∙◌, refl, sym, ap, some_injective, ==_refl, inl, inr, arith, Bool-cases,
}
use onecatch.Base.Dict
use onecatch.Base.Dict.{Dict, lookup-insert}
use onecatch.Workflow.Model.{Run}
use onecatch.Scheduler.{Reply, reply, fault, storage, reply_injective}
use onecatch.RunStore.{
  StoreError, context_ended, state_conflict, run_not_found, unreadable, Disk, Update, stored,
  failed, validate_run_for_storage, current_run, write_run, revised, replace_run, replace_current,
  update_run,
}

-- What a write that is accepted leaves: the run at the next revision, in place of one at the revision
-- that was expected, and every other run as it was.
pub record Written (store : Dict Run) (input : Run) (n : ℕ) (out : Run) (after : Dict Run)
    : Type 0 where
  pub run : out ≡ record input { revision = suc n }
  pub before : (old : Run) × (Dict.lookup input.id store ≡ some old) × (old.revision ≡ n)
  pub after_it :
      (id : String)
      → Dict.lookup id after ≡ (if input.id == id then some out else Dict.lookup id store)

abbrev Accepted : Dict Run → Run → ℕ → Update → Type 0
Accepted store input n (failed e) = Unit
Accepted store input n (stored out after) = Written store input n out after

module _ (disk : Disk) (store : Dict Run) (input : Run) (n : ℕ) where
  write_run-Accepted :
      (current : Run)
      → Dict.lookup input.id store ≡ some current
      → current.revision ≡ n
      → Accepted store input n (write_run disk store current (revised input n))
  unfolding write_run
  write_run-Accepted current found same =
      let run = revised input n in
      elim (Bool-cases
        (not (run.task_id == current.task_id) || not (run.workflow_id == current.workflow_id))) [
          | inl h ↦ rw h tt
          | inr h ↦ elim (Bool-cases disk.writable) [
            | inr w ↦ rw (h, w) tt
            | inl w ↦
                rw (h, w)
                  (record {
                    run = refl;
                    before = (current, found, same);
                    after_it = λ id. lookup-insert input.id id run store;
                  })
          ]
        ]

  checked_Accepted :
      (current : Run) (e : Option StoreError)
      → Dict.lookup input.id store ≡ some current
      → current.revision ≡ n
      → Accepted store input n
          (elim e [ some x ↦ failed x | none ↦ write_run disk store current (revised input n) ])
  checked_Accepted current (some x) found same = tt
  checked_Accepted current none found same = write_run-Accepted current found same

  replace_run-Accepted :
      (current : Run)
      → Dict.lookup input.id store ≡ some current
      → Accepted store input n (replace_run disk store input n current)
  unfolding replace_run
  replace_run-Accepted current found = elim (Bool-cases (eqb current.revision n)) [
    | inr h ↦ rw h tt
    | inl h ↦ rw h (
        checked_Accepted current (validate_run_for_storage (revised input n)) found
          (ground (arith, h)))
  ]

  Accepted-if :
      (b : Bool) (x y : Update)
      → Accepted store input n x
      → Accepted store input n y
      → Accepted store input n (if b then x else y)
  Accepted-if true x y p q = p
  Accepted-if false x y p q = q

  readable_Accepted :
      (b : Bool) (run : Run)
      → Dict.lookup input.id store ≡ some run
      → Accepted store input n
          (replace_current disk store input n (if b then stored run store else failed unreadable))
  unfolding replace_current
  readable_Accepted true run e = replace_run-Accepted run e
  readable_Accepted false run e = tt

  current_Accepted :
      (o : Option Run)
      → Dict.lookup input.id store ≡ o
      → Accepted store input n (
          replace_current disk store input n (elim o [
            | none ↦ failed run_not_found
            | some run ↦ if disk.readable then stored run store else failed unreadable
          ]))
  unfolding replace_current
  current_Accepted none e = tt
  current_Accepted (some run) e = readable_Accepted disk.readable run e

  update_run-Accepted : Accepted store input n (update_run disk store input n)
  unfolding update_run current_run
  update_run-Accepted =
      let read = replace_current disk store input n (current_run disk store input.id) in
      let bad = ltb n 1 || not (disk.valid_id input.id) in
      Accepted-if disk.ended (failed context_ended) (if bad then failed state_conflict else read) tt
        (Accepted-if bad (failed state_conflict) read tt
          (current_Accepted (Dict.lookup input.id store) refl))

stored_injective : {a b : Run} {s t : Dict Run} → stored a s ≡ stored b t → (a ≡ b) × (s ≡ t)
stored_injective h = (cc, cc)

stored-Written :
    (store : Dict Run) (input : Run) (n : ℕ) (u : Update) (out : Run) (after : Dict Run)
    → Accepted store input n u
    → u ≡ stored out after
    → Written store input n out after
stored-Written store input n (failed e) out after a h = cc
stored-Written store input n (stored o s) out after a h =
    let (same, left) = stored_injective h in rw (← same, ← left) a

-- An accepted write finds the run in the store at the revision that is expected, puts in its place the
-- given run with that revision plus one, and leaves every other run as it was.
pub update_run-Written :
    (disk : Disk) (store after : Dict Run) (input out : Run) (n : ℕ)
    → update_run disk store input n ≡ stored out after
    → Written store input n out after
update_run-Written disk store after input out n e =
    stored-Written store input n (update_run disk store input n) out after
      (update_run-Accepted disk store input n) e

-- Of two writes that expect the same revision of one run only the first is accepted, whatever the disk
-- answers.
pub second_write_is_refused :
    (disk later : Disk) (store after last : Dict Run) (a b out out' : Run) (n : ℕ)
    → update_run disk store a n ≡ stored out after
    → b.id ≡ a.id
    → update_run later after b n ≢ stored out' last
second_write_is_refused disk later store after last a b out out' n e same e' =
    let w = update_run-Written disk store after a out n e in
    let w' = update_run-Written later after last b out' n e' in
    let (old, found, expected) = w'.before in
    let there : some out ≡ some old =
      sym (w.after_it b.id ∙ rw (same, ==_refl a.id) refl) ∙ found in
    let one : out ≡ old = some_injective there in
    let next : out.revision ≡ suc n = rw w.run refl in
    omega (arith, next, ap (λ r. r.revision) one, expected)

-- The store as the scheduler calls it: an error carries its text.
abbrev pub answer_of : (StoreError → String) → Update → Reply Run
answer_of words (stored out after) = reply out
answer_of words (failed e) = fault (storage (words e))

answered :
    (words : StoreError → String) (store : Dict Run) (input out : Run) (n : ℕ) (u : Update)
    → Accepted store input n u
    → answer_of words u ≡ reply out
    → out ≡ record input { revision = suc n }
answered words store input out n (stored o after) w e = sym (reply_injective e) ∙ w.run
answered words store input out n (failed x) w e = cc

-- The store does what the scheduler relies on: a write that comes back without an error comes back with
-- the run that was given, at the next revision.
update_run_refines :
    (words : StoreError → String) (disk : Disk) (store : Dict Run) (run out : Run) (n : ℕ)
    → answer_of words (update_run disk store run n) ≡ reply out
    → out ≡ record run { revision = suc n }
update_run_refines words disk store run out n e =
    answered words store run out n (update_run disk store run n)
      (update_run-Accepted disk store run n) e
