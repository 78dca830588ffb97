-- ===== src/Menu/Build/Built.antt =====
-- What a menu that is built by adding items satisfies.
use yterm.Prelude.{
  ℕ, ◌≤◌, ◌≡◌, refl, ap, sym, ◌∙◌, Bool, true, false, ◌&&◌, ◌||◌, not, Option, none, some, List, [],
  ◌∷◌, ◌++◌, ℤ, pos, ◌≤ℤ◌, arith, length, length-append,
}
use yterm.Menu.{
  MenuKind, label, submenu, boolean, three_way, bit_flag, MenuItem, MenuWindow, Display, clamp_int,
  menu_new_window, append_item, menu_center,
}
use yterm.Utf.{valid_cp, utf8d_consume}
use yterm.Menu.Captions.{Caption, caption_new, put_one, put_chars, is_some}
use yterm.Menu.Cursor.{is_enabled, is_label}
use yterm.Menu.Cursor.Found.{enabled_at}
use yterm.Menu.Cursor.Placed.{Keyed, IsMenu}
use yterm.Menu.Build.{label_caption, add_label_ex, add_label, new_message_box, message_items}

-- The window of a menu with items is at least 5 by 3 and within its limits.
pub record IsSized (m : MenuWindow) : Type 0 where
  pub wide : pos 5 ≤ℤ m.width
  pub narrow : m.width ≤ℤ pos m.max_width
  pub tall : 3 ≤ m.height
  pub low : m.height ≤ m.max_height

pub record IsBuilt (m : MenuWindow) : Type 0 where
  pub counted : m.items_count ≡ length m.items
  pub keyed : Keyed m.items
  pub at_top : m.top_item ≡ 0
  pub roomy : 6 ≤ m.max_width
  pub high : 4 ≤ m.max_height

unmarked :
    (valid : Bool) (len : ℕ) (key : Option ℕ) (cp : ℕ) (rest : Caption)
    → (put_one (valid && false) valid len key cp rest).hotkey ≡ rest.hotkey
unfolding put_one
unmarked true len key cp rest = refl
unmarked false len key cp rest = refl

-- Without marks there is no hot key.
plain_caption : (s : List ℕ) (len cp : ℕ) → is_some (put_chars false len cp s).hotkey ≡ false
unfolding put_chars
plain_caption [] len cp = refl
plain_caption (c ∷ s) len cp =
    ap is_some (unmarked (valid_cp (utf8d_consume cp c)) _ _ _ _) ∙ plain_caption s _ _

Keyed-append :
    (its : List MenuItem) (it : MenuItem)
    → Keyed its
    → (is_some it.caption.hotkey ≡ true → is_enabled it ≡ true)
    → Keyed (its ++ (it ∷ []))
Keyed-append [] it h e = (e, tt)
Keyed-append (x ∷ its) it h e = (h.0, Keyed-append its it h.1 e)

new_window-IsBuilt :
    (d : Display) (x y : ℤ) (title : List ℕ) (w h : ℤ) → IsBuilt (menu_new_window d x y title w h)
unfolding menu_new_window
new_window-IsBuilt d x y title w h = record {
  counted = refl;
  keyed = tt;
  at_top = refl;
  roomy = omega arith;
  high = omega arith;
}

append_item-IsBuilt :
    (extra : ℕ) (it : MenuItem) (m : MenuWindow)
    → (is_some it.caption.hotkey ≡ true → is_enabled it ≡ true)
    → IsBuilt m
    → IsBuilt (append_item extra it m)
unfolding append_item
append_item-IsBuilt extra it m e b = record {
  counted = omega (arith, b.counted, length-append {0} m.items (it ∷ []));
  keyed = Keyed-append m.items it b.keyed e;
  at_top = b.at_top;
  roomy = b.roomy;
  high = b.high;
}

append_item-IsSized :
    (extra : ℕ) (it : MenuItem) (m : MenuWindow) → IsBuilt m → IsSized (append_item extra it m)
unfolding append_item clamp_int
append_item-IsSized extra it m b = record {
  wide = ground (arith, b.roomy);
  narrow = ground (arith, b.roomy);
  tall = ground (arith, b.high);
  low = ground (arith, b.high);
}

label-Keyed :
    (text : Option (List ℕ)) (kind : MenuKind) (action : Option ℕ)
    → is_some (label_caption text kind action).hotkey ≡ true
    → (not (is_label kind) || is_some action) ≡ true
unfolding label_caption caption_new
label-Keyed none label none h = cc h
label-Keyed (some t) label none h = cc (h, plain_caption t _ _)
label-Keyed text kind (some f) h = ground arith
label-Keyed text submenu none h = refl
label-Keyed text boolean none h = refl
label-Keyed text three_way none h = refl
label-Keyed text bit_flag none h = refl

add_label-IsBuilt :
    (text : Option (List ℕ)) (action : Option ℕ) (m : MenuWindow)
    → IsBuilt m
    → IsBuilt (add_label text action m) × IsSized (add_label text action m)
unfolding add_label add_label_ex is_enabled
add_label-IsBuilt text action m b =
    (append_item-IsBuilt _ _ m (label-Keyed text label action) b, append_item-IsSized _ _ m b)

enabled_at-append :
    (its : List MenuItem) (it : MenuItem)
    → enabled_at (its ++ (it ∷ [])) (length its) ≡ is_enabled it
enabled_at-append [] it = refl
enabled_at-append (x ∷ its) it = enabled_at-append its it

-- A menu whose cursor is on the label with a callback that is added last.
last_label-IsMenu :
    (text : Option (List ℕ)) (f : ℕ) (m : MenuWindow)
    → IsBuilt m
    → m.curr_item ≡ length m.items
    → IsMenu (add_label text (some f) m)
unfolding add_label add_label_ex append_item is_enabled
last_label-IsMenu text f m b e =
    let r : IsBuilt (add_label text (some f) m) = (add_label-IsBuilt text (some f) m b).0 in
    record {
      counted = r.counted;
      keyed = r.keyed;
      on_item = rw e (enabled_at-append m.items _);
      below_top = rw b.at_top (omega arith);
    }

centered :
    (d : Display) (m : MenuWindow)
    → IsMenu m × IsSized m
    → IsMenu (menu_center d m) × IsSized (menu_center d m)
unfolding menu_center
centered d m (h, s) = (
  record { counted = h.counted; keyed = h.keyed; on_item = h.on_item; below_top = h.below_top },
  record { wide = s.wide; narrow = s.narrow; tall = s.tall; low = s.low },
)

at_two : (m : MenuWindow) → IsBuilt m → IsBuilt (record m { curr_item = 2 })
at_two m b = record {
  counted = b.counted;
  keyed = b.keyed;
  at_top = b.at_top;
  roomy = b.roomy;
  high = b.high;
}

message_items-IsMenu :
    (close : ℕ) (message : List ℕ) (m : MenuWindow)
    → IsBuilt m
    → m.curr_item ≡ 0
    → length m.items ≡ 0
    → IsMenu (message_items close message m) × IsSized (message_items close message m)
unfolding message_items
message_items-IsMenu close [] m b e l =
    (last_label-IsMenu _ close m b (e ∙ sym l), (add_label-IsBuilt _ (some close) m b).1)
message_items-IsMenu close (c ∷ message) m b e l =
    let first = add_label (some (c ∷ message)) none m in
    let b' : IsBuilt (record (add_label none none first) { curr_item = 2 }) =
      at_two _ (add_label-IsBuilt none none first (add_label-IsBuilt _ none m b).0).0 in
    (last_label-IsMenu _ close _ b' two, (add_label-IsBuilt _ (some close) _ b').1)
  where
    two : 2 ≡ length (add_label none none (add_label (some (c ∷ message)) none m)).items
    two =
        unfold add_label in
        unfold add_label_ex in
        unfold append_item in
        omega (
          arith,
          l,
          length-append {0} m.items (_ ∷ []),
          length-append {0} (m.items ++ (_ ∷ [])) (_ ∷ []),
        )

-- The message box for any title and message: its items with hot keys are enabled, its cursor is on
-- an enabled one, and it is at least 5 by 3 and within its limits.
pub message_box-IsMenu :
    (d : Display) (close : ℕ) (title message : List ℕ)
    → IsMenu (new_message_box d close title message)
      × IsSized (new_message_box d close title message)
unfolding new_message_box menu_new_window
message_box-IsMenu d close title message = centered d _ (
    message_items-IsMenu close message (menu_new_window d (pos 0) (pos 0) title (pos 0) (pos 0))
      (new_window-IsBuilt d (pos 0) (pos 0) title (pos 0) (pos 0)) refl refl)
