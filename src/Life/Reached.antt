-- ===== src/Life/Reached.antt =====
-- What holds of every review in every database that the system reaches.
use dost_review_api.Prelude.{◌≡◌, true, some}
use dost_review_api.Models.{Uuid}
use dost_review_api.Review.{Row, find}
use dost_review_api.Review.Laws.{HasUniqueIds}
use dost_review_api.Batch.Database.{Db}
use dost_review_api.Life.{Moves, is_final, row_status}
use dost_review_api.Life.Laws.{Kept, Kept-refl, Kept-trans}
use dost_review_api.Life.Submission.{gate-Kept, admit-Kept}
use dost_review_api.Life.Run.{start-Kept, complete-Kept, sweep-Kept}
use dost_review_api.Life.System.{Reaches, here, submits, admits, starts, completes, sweeps}

reached-Kept : {db db' : Db} → Reaches db db' → Kept db.reviews db'.reviews
reached-Kept {db} here = Kept-refl db.reviews
reached-Kept {db} (submits {s} before settings env review event_id quiet) =
    Kept-trans db.reviews s.reviews _ (reached-Kept before)
      (gate-Kept env review event_id settings s.reviews quiet)
reached-Kept {db} (admits {s} before settings env review event_id profile_error) =
    Kept-trans db.reviews s.reviews _ (reached-Kept before)
      (admit-Kept env review event_id settings profile_error s.reviews)
reached-Kept {db} (starts {s} before renv fresh) =
    Kept-trans db.reviews s.reviews _ (reached-Kept before) (start-Kept renv fresh s)
reached-Kept {db} (completes {s} before settings env renv id) =
    Kept-trans db.reviews s.reviews _ (reached-Kept before) (complete-Kept settings env renv id s)
reached-Kept {db} (sweeps {s} before renv) =
    Kept-trans db.reviews s.reviews _ (reached-Kept before) (sweep-Kept renv s)

-- The system refines the moves: from a database with unique ids, whatever submissions, runs (each as one
-- step) and sweeps follow one another, each review goes only through moves from one status to the next.
pub reached-Moves :
    (db db' : Db) (k : Uuid)
    → HasUniqueIds db.reviews
    → Reaches db db'
    → Moves (row_status (find k db.reviews)) (row_status (find k db'.reviews))
reached-Moves db db' k unique steps = ((reached-Kept steps unique).1 k).0

-- A review that is COMMITTED or FAILED stays in the table as it is, in all its columns, whatever
-- submissions, of its own id too, runs (each as one step) and sweeps follow, however they end. Ids are
-- unique at first.
pub reached-Final :
    (db db' : Db) (k : Uuid) (r : Row)
    → HasUniqueIds db.reviews
    → Reaches db db'
    → find k db.reviews ≡ some r
    → is_final r.status ≡ true
    → find k db'.reviews ≡ some r
reached-Final db db' k r unique steps stored final =
    ((reached-Kept steps unique).1 k).1 r stored final
