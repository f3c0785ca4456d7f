-- ===== src/RateLimit/Sliding/Recent.antt =====
-- What a window shows of the requests, as it moves on.
use enclave_mail.Prelude.{
  ℕ, ◌+◌, ◌*◌, ◌/◌, ◌≤◌, ◌≡◌, refl, Bool, false, not, ◌&&◌, ◌||◌, List, [], ◌∷◌, ◌++◌, arith, Text,
  text_eq, text_Eq, ltb, filter, All,
}
use enclave_mail.Prelude.Int.{pos, leb_ℤ}
use enclave_mail.RateLimit.Sliding.{window_start}
use enclave_mail.RateLimit.Sliding.Laws.{Entry}

-- Whether a request is within the window that ends at `now`.
abbrev pub in_window : ℕ → ℕ → Entry → Bool
in_window window now e = ltb now (e.0 + window)

-- Whether a request with the member was made.
abbrev pub is_member : List Entry → Text → Bool
is_member [] member = false
is_member (e ∷ history) member = text_eq e.1 member || is_member history member

-- A later window shows what an earlier one showed, less what it has left behind.
pub filter-later :
    (window now t : ℕ) (es : List Entry)
    → now ≤ t
    → filter (in_window window t) (filter (in_window window now) es)
      ≡ filter (in_window window t) es
unfolding filter
filter-later window now t [] le = refl
filter-later window now t (e ∷ es) le = ground (arith, le, filter-later window now t es le)

-- Pruning leaves what is within the window.
pub filter-pruned :
    (window now : ℕ) (es : List Entry)
    → filter (λ e. not (leb_ℤ (pos 0) (pos e.0) && leb_ℤ (pos e.0) (window_start now window))) es
      ≡ filter (in_window window now) es
unfolding filter
filter-pruned window now [] = refl
filter-pruned window now (e ∷ es) = ground (arith, filter-pruned window now es)

-- Adding a new member takes no other away.
pub filter-new :
    (window now : ℕ) (member : Text) (es : List Entry)
    → is_member es member ≡ false
    → filter (λ e. not (text_eq e.1 member)) (filter (in_window window now) es)
      ≡ filter (in_window window now) es
unfolding filter
filter-new window now member [] h = refl
filter-new window now member (e ∷ es) h = ground (arith, h, filter-new window now member es)

-- Nothing that was made by `now` is within the windows that begin after it.
pub filter-gone :
    (window now t : ℕ) (es : List Entry)
    → All (λ e. e.0 ≤ now) es
    → now + window ≤ t
    → filter (in_window window t) es ≡ []
unfolding filter
filter-gone window now t [] made le = refl
filter-gone window now t (e ∷ es) made le =
    ground (arith, made.0, le, filter-gone window now t es made.1 le)

pub All-made :
    (from now : ℕ) (es : List Entry) (member : Text)
    → All (λ e. e.0 ≤ from) es
    → from ≤ now
    → All (λ e. e.0 ≤ now) (es ++ (now, member) ∷ [])
All-made from now [] member made le = (omega arith, tt)
All-made from now (e ∷ es) member made le =
    (omega (arith, made.0, le), All-made from now es member made.1 le)

-- The lifetime of the key covers the window.
pub window-le : (window : ℕ) → window ≤ (window + 999) / 1000 * 1000
window-le window = omega arith
