-- ===== src/Life/Laws.antt =====
-- Lives follow one another, and what the moves rule out.
use dost_review_api.Prelude.{
  Bool, true, false, ◌≡◌, sym, ap, subst, Option, none, some, List, arith, Bool-cases, inl, inr,
}
use dost_review_api.Models.{Uuid}
use dost_review_api.Review.{
  Row, find, Status, gated, gate_rejected, processing, committed, failed, is_rejected, is_gated,
  is_processing,
}
use dost_review_api.Review.Laws.{HasUniqueIds, upserted}
use dost_review_api.Life.{
  accepted, refused, accepted_later, taken, returned, done, given_up, Moves, stay, step, is_final,
  row_status, Life,
}

pub Moves-trans : {s t u : Option Status} → Moves s t → Moves t u → Moves s u
Moves-trans m stay = m
Moves-trans m (step n a) = step (Moves-trans m n) a

pub Life-refl : (o : Option Row) → Life o o
Life-refl o = (stay, (λ r e f. e))

pub Life-eq : (o p : Option Row) → p ≡ o → Life o p
Life-eq o p e = subst (λ (q : Option Row). Life o q) (sym e) (Life-refl o)

pub Life-trans : (o p q : Option Row) → Life o p → Life p q → Life o q
Life-trans o p q a b = (Moves-trans a.0 b.0, (λ r e f. b.1 r (a.1 r e f) f))

-- A claimed review that stays stored and is not rejected has come there by way of PROCESSING.
pub gated-Moves : (s : Status) → is_rejected s ≡ false → Moves (some gated) (some s)
gated-Moves gated h = stay
gated-Moves gate_rejected h = cc
gated-Moves processing h = step stay taken
gated-Moves committed h = step (step stay taken) done
gated-Moves failed h = step (step stay taken) given_up

abbrev final_at : Option Row → Bool
final_at none = false
final_at (some r) = is_final r.status

pub open-Life :
    (r : Row) (p : Option Row)
    → is_final r.status ≡ false
    → Moves (some r.status) (row_status p)
    → Life (some r) p
open-Life r p unfinished moves = (moves, (λ q e f. absurd (cc (unfinished, f, ap final_at e))))

pub none-Life : (p : Option Row) → Moves none (row_status p) → Life none p
none-Life p moves = (moves, (λ q e f. absurd (cc e)))

pub gated-Life :
    (r s : Row) → is_gated r.status ≡ true → is_rejected s.status ≡ false → Life (some r) (some s)
gated-Life r s w h =
    open-Life r (some s) (ground arith) (
      subst (λ (a : Status). Moves (some a) (some s.status)) (ground arith)
        (gated-Moves s.status h))

processing-Moves : (s : Status) → is_rejected s ≡ false → Moves (some processing) (some s)
processing-Moves gated h = step stay returned
processing-Moves gate_rejected h = cc
processing-Moves processing h = stay
processing-Moves committed h = step stay done
processing-Moves failed h = step stay given_up

pub processing-Life :
    (r s : Row)
    → is_processing r.status ≡ true
    → is_rejected s.status ≡ false
    → Life (some r) (some s)
processing-Life r s w h = open-Life r (some s) (ground arith) (
    subst (λ (a : Status). Moves (some a) (some s.status)) (ground arith)
      (processing-Moves s.status h))

-- An upsert of a rejected row, or of an accepted one.
pub rejected-Life :
    (new : Row) (merge : Row → Row) (o : Option Row)
    → new.status ≡ gate_rejected
    → ((r : Row) → (merge r).status ≡ r.status)
    → Life o (some (upserted new merge o))
rejected-Life new merge none e keeps = none-Life (some new) (rw e (step stay refused))
rejected-Life new merge (some r) e keeps = elim (Bool-cases (is_rejected r.status)) [
  | inl old ↦ rw old (open-Life r (some (merge r)) (ground arith) (rw (keeps r) stay))
  | inr live ↦ rw live (Life-refl (some r))
]

pub accepted-Life :
    (new : Row) (merge : Row → Row) (o : Option Row)
    → new.status ≡ gated
    → ((r : Row) → (merge r).status ≡ gated)
    → Life o (some (upserted new merge o))
accepted-Life new merge none e keeps = none-Life (some new) (rw e (step stay accepted))
accepted-Life new merge (some r) e keeps = elim (Bool-cases (is_rejected r.status)) [
  | inl old ↦
      let was : gate_rejected ≡ r.status = ground arith in
      rw old (
        open-Life r (some (merge r)) (ground arith) (
          subst (λ (a : Status). Moves (some a) (some (merge r).status)) was
            (rw (keeps r) (step stay accepted_later))))
  | inr live ↦ rw live (Life-refl (some r))
]

-- What a step does to a table with unique ids: they stay unique, and each review lives on.
abbrev pub Kept : List Row → List Row → Type 0
Kept rows rows' =
    HasUniqueIds rows → HasUniqueIds rows' × ((k : Uuid) → Life (find k rows) (find k rows'))

pub Kept-refl : (rows : List Row) → Kept rows rows
Kept-refl rows u = (u, (λ k. Life-refl (find k rows)))

pub Kept-trans : (a b c : List Row) → Kept a b → Kept b c → Kept a c
Kept-trans a b c f g u = (
  (g (f u).0).0,
  (λ k. Life-trans (find k a) (find k b) (find k c) ((f u).1 k) ((g (f u).0).1 k)),
)
