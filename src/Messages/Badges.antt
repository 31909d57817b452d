-- ===== src/Messages/Badges.antt =====
-- `getStatusBadge` of src/pages/MessagesPage.js and src/pages/CampaignsPage.js, and `statusInfo` of
-- src/components/RecipientsDrawer.js, in nexra-dashboard.
use nexra.Prelude.{
  ℕ, String, Option, none, some, List, [], ◌∷◌, ◌++◌, Text, codes, text_eq, if◌then◌else◌,
  get_or_else,
}

pub data BadgeVariant : Type 0 where
  default warning info success danger : BadgeVariant

pub record Badge : Type 0 where
  pub variant : BadgeVariant
  pub label : Text

abbrev Entry : Type 0
Entry = Text × BadgeVariant × Text

-- `table[status]`
abbrev find_badge : List Entry → Text → Option Badge
find_badge [] status = none
find_badge ((key, variant, label) ∷ es) status =
    if text_eq key status
    then some (record { variant = variant; label = label })
    else find_badge es status

abbrev entry : String → BadgeVariant → String → Entry
entry key variant label = (codes key, variant, codes label)

abbrev pub message_statuses : List Entry
message_statuses =
    entry "draft" default "Draft"
    ∷ entry "pending" warning "Pending"
    ∷ entry "processing" warning "Processing"
    ∷ entry "sending" info "Sending"
    ∷ entry "delivering" info "Delivering"
    ∷ entry "submitted" info "Submitted"
    ∷ entry "delivered" success "Delivered"
    ∷ entry "completed" success "Completed"
    ∷ entry "failed" danger "Failed"
    ∷ entry "not_delivered" danger "Not Delivered"
    ∷ []

abbrev pub campaign_statuses : List Entry
campaign_statuses =
    entry "draft" default "Draft"
    ∷ entry "scheduled" warning "Scheduled"
    ∷ entry "sending" info "Sending"
    ∷ entry "delivering" info "Delivering"
    ∷ entry "completed" success "Completed"
    ∷ entry "failed" danger "Failed"
    ∷ []

abbrev pub recipient_statuses : List Entry
recipient_statuses =
    entry "delivered" success "Delivered"
    ∷ entry "submitted" info "Submitted"
    ∷ entry "pending" warning "Pending"
    ∷ entry "processing" warning "Processing"
    ∷ entry "failed" danger "Failed"
    ∷ entry "not_delivered" danger "Not Delivered"
    ∷ []

-- A status that is not in the table is shown with its first letter raised; `upper` is `toUpperCase`
-- of one code unit.
abbrev capitalized : (ℕ → Text) → Text → Text
capitalized upper [] = codes "Unknown"
capitalized upper (c ∷ s) = upper c ++ s

pub get_status_badge : (ℕ → Text) → List Entry → Text → Badge
unfolding text_eq
get_status_badge upper table status =
    get_or_else (find_badge table status)
      (record { variant = default; label = capitalized upper status })

-- `STATUS_BADGE[status] || { variant: 'default', label: status || 'Unknown' }`
abbrev or_word : Text → Text
or_word [] = codes "Unknown"
or_word (c ∷ s) = c ∷ s

pub status_info : Text → Badge
unfolding text_eq
status_info status =
    get_or_else (find_badge recipient_statuses status)
      (record { variant = default; label = or_word status })
