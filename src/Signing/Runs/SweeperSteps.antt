-- ===== src/Signing/Runs/SweeperSteps.antt =====
-- The statements of workers/sweeper_escri.py and of the endpoints on public.signing_sessions, as
-- changes of rows that are allowed to change so.
use gdi_backend.Prelude.{
  ℕ, ◌≡◌, refl, Bool, true, false, ◌&&◌, Option, none, some, List, [], ◌∷◌, arith, ◌==◌, eq_some,
  Bool-cases, inl, inr, find_if, keep_if, update_if,
}
use gdi_backend.Prelude.Texts.{Text}
use gdi_backend.Numbering.Tables.{OfficialDocument}
use gdi_backend.Signing.Tables.{sign, JobType, processing, Session, Draft, is_live}
use gdi_backend.Signing.Closing.{signed_row}
use gdi_backend.Signing.Queue.{expired_row}
use gdi_backend.Signing.Poll.{
  get_async_poll_status, poll_row, poll_rows, healed_number, polled_row, live_row,
}
use gdi_backend.Signing.Sweeper.{
  handle_processing_expired, confirming_payload, reclaimed_with, requeue_rows, requeue_row,
  is_overdue,
}
use gdi_backend.Signing.Runs.{Allowed, Evolves}
use gdi_backend.Signing.Runs.Rows.{Evolves_refl, Evolves_trans, update_if-Evolves, live-Allowed}
use gdi_backend.Signing.Runs.WorkerSteps.{in_process-Evolves}

pub expired-Evolves :
    (p : Session → Bool) (reason : Text) (now : ℕ) (rows : List Session)
    → ((r : Session) → p r ≡ true → is_live r.status ≡ true)
    → Evolves rows (update_if p (expired_row reason now) rows)
expired-Evolves p reason now rows live =
    update_if-Evolves p (expired_row reason now) rows
      (λ r m h. live-Allowed r (live r h) (λ k. refl))

requeue_row-Evolves :
    (now : ℕ) (od : ℕ → Option OfficialDocument) (s : Session) (rows : List Session)
    → Evolves rows (requeue_row now od s rows)
requeue_row-Evolves now od s rows =
    in_process-Evolves s.session_id
      (reclaimed_with now (confirming_payload (od s.document_id) s.payload)) rows
      (λ r live. live-Allowed r live (λ k. refl))

requeue_rows-Evolves :
    (now : ℕ) (od : ℕ → Option OfficialDocument) (found rows : List Session)
    → Evolves rows (requeue_rows now od found rows)
requeue_rows-Evolves now od [] rows = Evolves_refl rows
requeue_rows-Evolves now od (s ∷ found) rows =
    Evolves_trans (requeue_row-Evolves now od s rows)
      (requeue_rows-Evolves now od found (requeue_row now od s rows))

pub handle_processing_expired-Evolves :
    (now schema : ℕ) (od : ℕ → Option OfficialDocument) (rows : List Session)
    → Evolves rows (handle_processing_expired now schema od rows)
unfolding handle_processing_expired
handle_processing_expired-Evolves now schema od rows =
    requeue_rows-Evolves now od (keep_if (is_overdue now schema sign processing) rows) rows

-- The rows of a tenant whose time in process is over.
pub overdue-Evolves :
    (now schema : ℕ) (job : JobType) (f : Session → Session) (rows : List Session)
    → ((r : Session) → is_live r.status ≡ true → Allowed r (f r))
    → Evolves rows (update_if (is_overdue now schema job processing) f rows)
overdue-Evolves now schema job f rows allowed =
    update_if-Evolves (is_overdue now schema job processing) f rows
      (λ r m h. allowed r (ground (arith, h)))

pub get_async_poll_status-Evolves :
    (answers : Bool) (now id user schema : ℕ) (drafts : List Draft) (rows : List Session)
    → Evolves rows (get_async_poll_status answers now id user schema drafts rows).1
unfolding get_async_poll_status
get_async_poll_status-Evolves answers now id user schema drafts rows =
    polled (find_if (polled_row id) rows)
  where
    reconciled : (b : Bool) (sid : ℕ) (o : Option Text) → Evolves rows (poll_rows b now sid o rows)
    reconciled b sid none = Evolves_refl rows
    reconciled false sid (some n) = Evolves_refl rows
    reconciled true sid (some n) =
        update_if-Evolves (live_row sid) (signed_row (some n) now) rows
          (λ r m h. live-Allowed r (ground (arith, h)) (λ k. refl))

    polled : (o : Option Session) → Evolves rows (poll_row answers now user schema drafts rows o).1
    polled none = Evolves_refl rows
    polled (some r) = elim (Bool-cases (r.schema_name == schema && eq_some r.user_id user)) [
      | inl e ↦ rw e (reconciled answers r.session_id (healed_number drafts r))
      | inr e ↦ rw e (Evolves_refl rows)
    ]
