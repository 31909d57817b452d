-- ===== src/Toasts.antt =====
-- nexra-dashboard/src/context/ToastContext.js and src/contexts/ToastContext.js (the same provider
-- twice), with src/components/ui/Toast.js. `Date.now()` is the argument `now`, in milliseconds; the
-- timers of `setTimeout` are part of the state and fire in `elapse`.
pub mod Lifetime
mod Tests
use nexra.Prelude.{
  ℕ, ◌+◌, String, Bool, true, false, not, List, [], ◌∷◌, ◌++◌, Option, none, some, leb, ltb, ◌==◌,
  if◌then◌else◌, filter, get_or_else,
}

pub data Variant : Type 0 where
  success error info other : Variant

pub record Toast : Type 0 where
  pub id : ℕ
  pub message : String
  pub variant : Variant

pub record Timer : Type 0 where
  pub due : ℕ
  pub id : ℕ

pub record Toasts : Type 0 where
  pub toasts : List Toast
  pub timers : List Timer

abbrev pub no_toasts : Toasts
no_toasts = record { toasts = []; timers = [] }

-- `prev.filter(t => t.id !== id)`
abbrev pub without : ℕ → List Toast → List Toast
without id ts = filter (λ t. not (t.id == id)) ts

-- `showToast(message, variant = 'info')`
pub show_toast : ℕ → String → Option Variant → Toasts → Toasts
show_toast now message variant s = record {
  toasts =
      s.toasts ++ record { id = now; message = message; variant = get_or_else variant info } ∷ [];
  timers = s.timers ++ record { due = now + 4000; id = now } ∷ [];
}

pub remove_toast : ℕ → Toasts → Toasts
remove_toast id s = record s { toasts = without id s.toasts }

-- The callbacks of the timers that are due, in the order in which they were set.
pub fire_due : ℕ → List Timer → List Toast → List Toast
fire_due now [] ts = ts
fire_due now (m ∷ ms) ts = fire_due now ms (if leb m.due now then without m.id ts else ts)

pub elapse : ℕ → Toasts → Toasts
unfolding fire_due
elapse now s = record {
  toasts = fire_due now s.timers s.toasts;
  timers = filter (λ m. ltb now m.due) s.timers;
}

pub data Event : Type 0 where
  shown : ℕ → String → Option Variant → Event
  removed : ℕ → Event
  elapsed : ℕ → Event

pub step : Event → Toasts → Toasts
step (shown now message variant) s = show_toast now message variant s
step (removed id) s = remove_toast id s
step (elapsed now) s = elapse now s

pub run : List Event → Toasts → Toasts
run [] s = s
run (e ∷ es) s = run es (step e s)

pub record Config : Type 0 where
  pub bg : String
  pub border : String
  pub icon : String
  pub icon_color : String
  pub text_color : String

abbrev info_config : Config
info_config = record {
  bg = "bg-blue-50";
  border = "border-blue-200";
  icon = "info";
  icon_color = "text-blue-600";
  text_color = "text-blue-900";
}

-- `variants[variant] || variants.info`
pub toast_config : Variant → Config
toast_config success = record {
  bg = "bg-emerald-50";
  border = "border-emerald-200";
  icon = "check-circle";
  icon_color = "text-emerald-600";
  text_color = "text-emerald-900";
}
toast_config error = record {
  bg = "bg-rose-50";
  border = "border-rose-200";
  icon = "alert-circle";
  icon_color = "text-rose-600";
  text_color = "text-rose-900";
}
toast_config info = info_config
toast_config other = info_config
