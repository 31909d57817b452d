-- ===== src/SignUp/Tests.antt =====
-- The number 024 123 4567 of Ghana.
use nexra.Prelude.{◌≡◌, arith, codes}
use nexra.Phone.{is_digit, normalize_phone_number, ghana}
use nexra.SignUp.{phone_input}
use nexra.SignUp.Spelling.{phone_input-normalize_phone_number}

phone_input-normalize_phone_number_example :
    (phone_input ghana (codes "241234567") ≡ normalize_phone_number (codes "241234567") ghana)
    × (phone_input ghana (codes "0241234567") ≡ normalize_phone_number (codes "0241234567") ghana)
unfolding is_digit
phone_input-normalize_phone_number_example =
    phone_input-normalize_phone_number (codes "241234567") (ground arith)
