-- ===== src/Life.antt =====
-- The life of a review across app/gate.py, app/batch_engine.py and app/batch_runner.py: the statuses it
-- may go through, and the steps of the system.
pub mod Laws
pub mod Submission
pub mod Claimed
pub mod Run
pub mod System
pub mod Reached
pub mod Woven
use dost_review_api.Prelude.{Bool, true, false, ◌≡◌, Option, none, some}
use dost_review_api.Review.{Row, Status, gated, gate_rejected, processing, committed, failed}

-- The moves of a review from one status to the next; `none` is a review that is not stored.
pub data Move : Option Status → Option Status → Type 0 where
  accepted : Move none (some gated)
  refused : Move none (some gate_rejected)
  accepted_later : Move (some gate_rejected) (some gated)
  taken : Move (some gated) (some processing)
  returned : Move (some processing) (some gated)
  done : Move (some processing) (some committed)
  given_up : Move (some processing) (some failed)

pub data Moves (s : Option Status) : Option Status → Type 0 where
  stay : Moves s s
  step : {t u : Option Status} → Moves s t → Move t u → Moves s u

abbrev pub is_final : Status → Bool
is_final committed = true
is_final failed = true
is_final _ = false

abbrev pub row_status : Option Row → Option Status
row_status none = none
row_status (some r) = some r.status

-- What may become of a stored row, or of none: its status moves, and a final row stays as it is.
abbrev pub Life : Option Row → Option Row → Type 0
Life o p =
    Moves (row_status o) (row_status p)
    × ((r : Row) → o ≡ some r → is_final r.status ≡ true → p ≡ some r)
