-- ===== src/Admin/Platform/Actions/Permissions.antt =====
-- The permissions of a user.
use nexra.Prelude.{
  ◌≡◌, Bool, true, not, List, [], ◌∷◌, Text, text_eq, text_eq_iff, if◌then◌else◌, arith, Bool-cases,
  inl, inr, sym, ap, ◌∙◌,
}
use nexra.Admin.Platform.Actions.{is_granted, toggle_permission}

text_eq_trans : (t u v : Text) → text_eq t u ≡ true → text_eq v u ≡ true → text_eq t v ≡ true
text_eq_trans t u v h k = (text_eq_iff t v).1 ((text_eq_iff t u).0 h ∙ sym ((text_eq_iff v u).0 k))

-- Toggling a permission changes that permission, and every other one stays.
pub is_granted-toggle_permission :
    (perms : List (Text × Bool)) (permission other : Text)
    → is_granted (toggle_permission perms permission) other ≡ (
        if text_eq permission other
        then not (is_granted perms permission)
        else is_granted perms other)
unfolding is_granted toggle_permission
is_granted-toggle_permission [] permission other = ground arith
is_granted-toggle_permission ((key, value) ∷ perms) permission other =
    elim (Bool-cases (text_eq key permission)) [
      | inl e ↦
          rw (e, is_granted, toggle_permission)
            (ground (arith, ap (λ t. text_eq t other) ((text_eq_iff key permission).0 e)))
      | inr e ↦
          rw (e, is_granted, toggle_permission)
            (ground (
              arith,
              e,
              is_granted-toggle_permission perms permission other,
              text_eq_trans key other permission,
            ))
    ]
