-- ===== src/Desktop/RunStream.antt =====
-- internal/service/desktop/runstream/hub.go: the current text of each stream of a run's transcript,
-- built from frames that come in pieces, and the subscribers that get every frame.
pub mod Streams
use Prim.Native.Nat.{Ordering}
use Prim.Native.String
use Prim.Native.String.{compare}
use onecatch.Base.{
  ℕ, suc, String, Bool, true, false, not, ◌&&◌, Option, none, some, List, [], ◌∷◌, map, ◌==◌, ltb,
  eqb, if◌then◌else◌,
}
use onecatch.Base.Dict
use onecatch.Base.Dict.{Dict}

-- `atomic` is the empty phase of an event that stands alone.
pub data Phase : Type 0 where
  atomic : Phase
  start : Phase
  delta : Phase
  snapshot : Phase
  end : Phase

-- `rest` stands for the fields of an event that the hub copies and never reads.
pub record Frame (R : Type 0) : Type 0 where
  pub run_id : String
  pub step_run_id : String
  pub seq : ℕ
  pub kind : String
  pub stream_id : String
  pub phase : Phase
  pub revision : ℕ
  pub text : String
  pub at : ℕ
  pub rest : R

-- `streamKey`
pub record Key : Type 0 where
  pub step_run_id : String
  pub stream_id : String

unfoldable pub same_key : Key → Key → Bool
same_key a b = (a.step_run_id == b.step_run_id) && (a.stream_id == b.stream_id)

module _ {R : Type 0} where
  -- `streams[key]`
  unfoldable pub lookup : Key → List (Key × Frame R) → Option (Frame R)
  lookup k [] = none
  lookup k ((j, f) ∷ m) = if same_key j k then some f else lookup k m

  -- `streams[key] = current`
  unfoldable pub insert : Key → Frame R → List (Key × Frame R) → List (Key × Frame R)
  insert k f [] = (k, f) ∷ []
  insert k f ((j, g) ∷ m) = if same_key j k then (k, f) ∷ m else (j, g) ∷ insert k f m

abbrev text_before : String → String → Bool
text_before s t = elim (compare s t) [ Ordering.lt ↦ true | _ ↦ false ]

abbrev without : ℕ → List ℕ → List ℕ
without n [] = []
without n (m ∷ ms) = if eqb m n then without n ms else m ∷ without n ms

-- `subscribers` holds the registered callbacks by their numbers.
pub record Hub (R : Type 0) : Type 0 where
  pub runs : Dict (List (Key × Frame R))
  pub subscribers : List ℕ
  pub next_id : ℕ

module _ {R : Type 0} where
  unfoldable pub new_hub : Hub R
  new_hub = record { runs = []; subscribers = []; next_id = 0 }

  unfoldable pub streams_of : String → Hub R → List (Key × Frame R)
  streams_of id h = elim (Dict.lookup id h.runs) [ none ↦ [] | some streams ↦ streams ]

  abbrev pub key_of : Frame R → Key
  key_of f = record { step_run_id = f.step_run_id; stream_id = f.stream_id }

  abbrev has_phase : Frame R → Bool
  has_phase f = elim f.phase [ atomic ↦ false | _ ↦ true ]

  -- The frame to which a piece of text is added: the current one, or the piece itself without its text.
  abbrev base : Option (Frame R) → Frame R → Frame R
  base none f = record f { text = "" }
  base (some current) f = current

  -- The `switch` on the phase.
  unfoldable pub advance : Option (Frame R) → Frame R → Frame R
  advance current f = elim f.phase [
    | atomic ↦ f
    | start ↦ record f { text = "" }
    | delta ↦ record (base current f) {
      text = String.◌++◌ (base current f).text f.text;
      kind = f.kind;
      phase = snapshot;
      revision = f.revision;
      at = f.at;
    }
    | snapshot ↦ f
    | end ↦ f
  ]

  -- `!exists || frame.Revision > current.Revision`
  unfoldable pub is_news : Option (Frame R) → Frame R → Bool
  is_news none f = true
  is_news (some current) f = ltb current.revision f.revision

  abbrev pub updated : Frame R → List (Key × Frame R) → List (Key × Frame R)
  updated f streams =
      if is_news (lookup (key_of f) streams) f
      then insert (key_of f) (advance (lookup (key_of f) streams) f) streams
      else streams

  -- The numbers of the callbacks that get the frame come with the new hub.
  unfoldable pub publish : Frame R → Hub R → Hub R × List ℕ
  publish f h =
      if f.run_id == ""
      then (h, [])
      else if not (f.stream_id == "") && has_phase f
      then (
        record h { runs = Dict.insert f.run_id (updated f (streams_of f.run_id h)) h.runs },
        h.subscribers,
      )
      else (h, h.subscribers)

  unfoldable pub clear_run : String → Hub R → Hub R
  clear_run id h = record h { runs = Dict.delete id h.runs }

  -- A completed stream stays completed.
  abbrev shown : Frame R → Frame R
  shown f = elim f.phase [ end ↦ f | _ ↦ record f { phase = snapshot } ]

  unfoldable pub before : Frame R → Frame R → Bool
  before f g =
      if not (eqb f.seq g.seq)
      then ltb f.seq g.seq
      else if not (f.step_run_id == g.step_run_id)
      then text_before f.step_run_id g.step_run_id
      else text_before f.stream_id g.stream_id

  unfoldable pub sorted_in : Frame R → List (Frame R) → List (Frame R)
  sorted_in f [] = f ∷ []
  sorted_in f (g ∷ gs) = if before g f then g ∷ sorted_in f gs else f ∷ g ∷ gs

  unfoldable pub sort : List (Frame R) → List (Frame R)
  sort [] = []
  sort (f ∷ fs) = sorted_in f (sort fs)

  -- `Snapshot`
  unfoldable pub snapshot_of : String → Hub R → List (Frame R)
  snapshot_of id h = sort (map (λ (k, f). shown f) (streams_of id h))

  unfoldable pub subscribe : Hub R → Hub R × ℕ
  subscribe h = (
    record h { next_id = suc h.next_id; subscribers = suc h.next_id ∷ h.subscribers },
    suc h.next_id,
  )

  unfoldable pub unsubscribe : ℕ → Hub R → Hub R
  unsubscribe id h = record h { subscribers = without id h.subscribers }
