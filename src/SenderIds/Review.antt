-- ===== src/SenderIds/Review.antt =====
-- nexra-dashboard/src/pages/AdminApprovalPage.js: the review of the requests. What the browser's
-- `prompt` returns is an argument: `none` when it is cancelled.
use Prim.Native.String
use nexra.Prelude.{
  ℕ, ◌≡◌, refl, String, Bool, true, false, not, ◌&&◌, Option, none, some, List, [], ◌∷◌, ◌++◌, Text,
  trim, ◌==◌, if◌then◌else◌, is_empty, arith, append_assoc, append-nil, sym, Bool-cases, inl, inr,
}
use nexra.Toasts.{Variant, success, error}
use nexra.Wizard.{Notice}
use nexra.SenderIds.{Item, Answer, ok, failed, or_null}

pub data Tab : Type 0 where
  pending_tab history_tab : Tab

-- The status that a button of a request sends.
pub data Decision : Type 0 where
  approve ask_verification reject : Decision

pub data Call : Type 0 where
  pending_queue history_queue : Call
  patch_status : ℕ → Decision → Option Text → Call

pub record Review : Type 0 where
  pub requests : List Item
  pub loading : Bool
  pub tab : Tab
  pub detail_request : Option Item
  pub calls : List Call
  pub notices : List Notice

abbrev notify : String → Variant → Review → Review
notify message variant p = record p {
  notices = p.notices ++ record { message = message; variant = variant } ∷ [];
}

abbrev call : Call → Review → Review
call c p = record p { calls = p.calls ++ c ∷ [] }

abbrev pub queue_of : Tab → Call
queue_of pending_tab = pending_queue
queue_of history_tab = history_queue

abbrev same_tab : Tab → Tab → Bool
same_tab pending_tab pending_tab = true
same_tab history_tab history_tab = true
same_tab _ _ = false

-- `fetchRequests` and its answer.
pub fetch_requests : Review → Review
fetch_requests p = call (queue_of p.tab) (record p { loading = true })

pub fetched : Option (List Item) → Review → Review
fetched none p = record (notify "Failed to load requests" error p) { loading = false }
fetched (some items) p = record p { requests = items; loading = false }

-- A click on a tab; the effect fetches when the tab is another one.
pub set_tab : Tab → Review → Review
unfolding fetch_requests
set_tab tab p = if same_tab tab p.tab then p else fetch_requests (record p { tab = tab })

pub open_detail : Item → Review → Review
open_detail item p = record p { detail_request = some item }

-- The status in the address of a decision and in its toast.
abbrev pub status_of : Decision → String
status_of approve = "approved"
status_of ask_verification = "need_verification"
status_of reject = "rejected"

-- The comment that goes with a decision, `none` when the handler returns: only a rejection needs
-- one.
pub comment_for : Decision → Option Text → Option (Option Text)
unfolding trim
comment_for reject none = none
comment_for reject (some reason) = if is_empty (trim reason) then none else some (some reason)
comment_for _ none = some none
comment_for _ (some note) = some (or_null note)

-- `current?.id === id ? null : current`
abbrev pub closed_for : ℕ → Option Item → Option Item
closed_for id none = none
closed_for id (some item) = if item.id == id then none else some item

-- `handleAction` from its start to its end.
pub handle_action : ℕ → Decision → Option Text → Answer → Review → Review
unfolding comment_for fetch_requests
handle_action id decision prompted answer p = elim (comment_for decision prompted) [
  | none ↦ p
  | some comment ↦
      let sent = call (patch_status id decision comment) p in
      elim answer [
        | ok ↦
            fetch_requests
              (record (notify (String.◌++◌ "Sender ID " (String.◌++◌ (status_of decision) "!"))
                success sent) { detail_request = closed_for id p.detail_request })
        | failed detail ↦ notify "Action failed" error sent
      ]
]

-- A decision is sent unless it is a rejection without a reason.
abbrev pub is_sent : Decision → Option Text → Bool
is_sent reject none = false
is_sent reject (some reason) = not (is_empty (trim reason))
is_sent _ prompted = true

abbrev pub is_ok : Answer → Bool
is_ok ok = true
is_ok (failed detail) = false

-- The note that the prompt returned; an empty one is no note.
abbrev pub note_of : Option Text → Option Text
note_of none = none
note_of (some note) = or_null note

comment_for-note_of :
    (decision : Decision) (prompted : Option Text)
    → comment_for decision prompted
      ≡ (if is_sent decision prompted then some (note_of prompted) else none)
unfolding comment_for trim
comment_for-note_of reject none = refl
comment_for-note_of reject (some []) = refl
comment_for-note_of reject (some (c ∷ s)) = ground arith
comment_for-note_of approve none = refl
comment_for-note_of approve (some note) = refl
comment_for-note_of ask_verification none = refl
comment_for-note_of ask_verification (some note) = refl

-- For every decision, whatever the prompt returned and the server answers: one request goes out
-- with the note, an empty one as none, unless the decision is a rejection whose reason is missing
-- or blank; a cancelled prompt does not stop the other decisions. Only after a success is the queue
-- of the tab fetched, with the loading state set, and the drawer of that request closed.
pub handle_action-outcome :
    (id : ℕ) (decision : Decision) (prompted : Option Text) (answer : Answer) (p : Review)
    → let after = handle_action id decision prompted answer p in
      let done = is_sent decision prompted && is_ok answer in
      (after.calls
        ≡ p.calls
          ++ ((if is_sent decision prompted
                then patch_status id decision (note_of prompted) ∷ []
                else [])
              ++ (if done then queue_of p.tab ∷ [] else [])))
      × (after.detail_request ≡ (if done then closed_for id p.detail_request else p.detail_request))
      × (after.loading ≡ (if done then true else p.loading))
unfolding handle_action fetch_requests
handle_action-outcome id decision prompted ok p = elim (Bool-cases (is_sent decision prompted)) [
  | inl sent ↦
      rw (comment_for-note_of decision prompted, sent, handle_action)
        (
          append_assoc p.calls (patch_status id decision (note_of prompted) ∷ [])
              (queue_of p.tab ∷ []),
          refl,
          refl,
        )
  | inr kept ↦
      rw (comment_for-note_of decision prompted, kept, handle_action)
        (sym (append-nil p.calls), refl, refl)
]
handle_action-outcome id decision prompted (failed detail) p =
    elim (Bool-cases (is_sent decision prompted)) [
      | inl sent ↦
          rw (comment_for-note_of decision prompted, sent, handle_action) (refl, refl, refl)
      | inr kept ↦
          rw (comment_for-note_of decision prompted, kept, handle_action)
            (sym (append-nil p.calls), refl, refl)
    ]
