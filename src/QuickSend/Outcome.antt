-- ===== src/QuickSend/Outcome.antt =====
-- What a submission of the modal does on every answer.
use nexra.Prelude.{
  ℕ, ◌+◌, ◌≡◌, refl, Bool, true, false, ◌&&◌, List, [], ◌∷◌, ◌++◌, Text, if◌then◌else◌, is_empty,
  one_if, arith, append_assoc, map, ap,
}
use nexra.Wizard.{RawContact, Answer, ok, failed}
use nexra.QuickSend.{
  QuickSend, recipients, create_campaign, broadcast, payload, report_failure, blank_form,
  handle_submit, sms_count,
}
use nexra.Checkout.{sms_parts}

abbrev pub is_ok {ℓ} : {A : Type ℓ} → Answer A → Bool
is_ok (ok a) = true
is_ok (failed detail) = false

phones-map :
    (ts : List Text)
    → map (λ (c : RawContact). c.phone) (map (λ (t : Text). record { name = []; phone = t }) ts)
      ≡ ts
phones-map [] = refl
phones-map (t ∷ ts) = ap (λ us. t ∷ us) (phones-map ts)

phones-payload :
    (name : Text) (q : QuickSend)
    → map (λ (c : RawContact). c.phone) (payload name q.form).raw_contacts
      ≡ recipients q.form.recipient
unfolding payload
phones-payload name q = phones-map (recipients q.form.recipient)

-- The modal counts the parts that the checkout charges for.
pub sms_count-sms_parts : (len : ℕ) → sms_count len ≡ sms_parts len
unfolding sms_count sms_parts
sms_count-sms_parts len = ground arith

-- With a sender chosen, on every answer: one campaign is created, for the recipients that the text
-- names; it is broadcast once it has an id, and only then; the modal closes, its form is emptied
-- and the parent is told exactly when both requests succeed; and the loading state ends. So when
-- only the broadcast fails, the campaign exists, and the form still holds the message.
pub handle_submit-outcome :
    (name : Text) (created : Answer ℕ) (sent : Answer (Unit {0})) (q : QuickSend)
    → is_empty q.form.sender ≡ false
    → let w = handle_submit name created sent q in
      (w.calls
        ≡ q.calls
          ++ create_campaign (payload name q.form)
            ∷ elim created [ ok id ↦ broadcast id ∷ [] | failed detail ↦ [] ])
      × (map (λ c. c.phone) (payload name q.form).raw_contacts ≡ recipients q.form.recipient)
      × (w.is_open ≡ (if is_ok created && is_ok sent then false else q.is_open))
      × (w.form ≡ (if is_ok created && is_ok sent then blank_form else q.form))
      × (w.sent_count ≡ q.sent_count + one_if (is_ok created && is_ok sent))
      × (w.loading ≡ false)
unfolding handle_submit report_failure
handle_submit-outcome name (ok id) (ok u) q h = ground (
  arith,
  h,
  phones-payload name q,
  append_assoc q.calls (create_campaign (payload name q.form) ∷ []) (broadcast id ∷ []),
)
handle_submit-outcome name (ok id) (failed detail) q h = ground (
  arith,
  h,
  phones-payload name q,
  append_assoc q.calls (create_campaign (payload name q.form) ∷ []) (broadcast id ∷ []),
)
handle_submit-outcome name (failed detail) sent q h = ground (arith, h, phones-payload name q)
