-- ===== src/Tests/Panes.antt =====
-- The theorems about the shell, the cards and the panes at concrete inputs.
use jvm_scout.Base.{
  ℕ, ◌≡◌, refl, ◌↔◌, inl, inr, Mem, filter, starts_with, split_on, [], ◌∷◌, List, none, Bool, true,
  false, codes, text_dec, text_discrete, ℕ_discrete, compare_text,
}
use jvm_scout.Client.Frames.{FrameRow}
use jvm_scout.Client.Applications.{ApplicationRow, production}
use jvm_scout.Shell.Frame.{NavItem, nav, is_active_item}
use jvm_scout.Shell.Frame.Laws.{is_active_item_unique}
use jvm_scout.Pages.EventDetail.Trace.{trace_rows}
use jvm_scout.Pages.EventDetail.Panes.{listed_frames, short_class, without_first, shown_class}
use jvm_scout.Pages.EventDetail.Panes.Laws.{filter-listed_frames-trace_rows}
use jvm_scout.Pages.Applications.{all_environments, Card, name, card_of, cards_of}
use jvm_scout.Pages.Applications.Cards.{IsOf, IsLike, IsCardOf, Mem-cards_of}
use jvm_scout.Tests.Data.{same, no_number}

abbrev events_item : NavItem
events_item = record { to = codes "/events"; label = codes "Events" }

in_nav : Mem events_item nav
unfolding nav
in_nav = inr (inl refl)

on_event : is_active_item (codes "/events/42") events_item ≡ true
unfolding is_active_item starts_with text_discrete ℕ_discrete
on_event = refl

is_active_item_unique_example : events_item ≡ events_item
is_active_item_unique_example =
    is_active_item_unique (codes "/events/42") events_item events_item in_nav in_nav on_event
      on_event

abbrev frame_in : ℕ → Bool → FrameRow
frame_in i user = record {
  id = [];
  snapshot_id = codes "1";
  frame_index = i;
  class_name = codes "Cart";
  method = codes "add";
  file = [];
  line = 7;
  in_user_code = user;
  source_snippet = none;
}

abbrev deep : List FrameRow
deep = frame_in 0 false ∷ frame_in 1 false ∷ frame_in 2 true ∷ []

filter-listed_frames-trace_rows_example :
    filter (λ f. f.in_user_code) (listed_frames [] (trace_rows deep))
    ≡ filter (λ f. f.in_user_code) deep
filter-listed_frames-trace_rows_example = filter-listed_frames-trace_rows [] deep

-- A class that is called like its package.
shown_twice : shown_class (codes "a.a") ≡ codes ".aa"
unfolding shown_class short_class without_first split_on starts_with ℕ_discrete
shown_twice = refl

abbrev cart : ApplicationRow
cart = record { id = codes "cart"; name = codes "cart"; environment = production; created_at = [] }

abbrev cart_card : Card
cart_card = card_of same compare_text no_number [] [] [] cart

Mem-cards_of_example :
    Mem cart_card (
      cards_of same compare_text no_number production all_environments [] name (cart ∷ []) [] [] [])
    ↔ ((app : ApplicationRow) × (Mem app (cart ∷ [])
          × (IsOf [] production all_environments app
              × (IsLike [] same compare_text no_number [] [] [] app.name
                  × IsCardOf [] same compare_text no_number [] [] app cart_card))))
Mem-cards_of_example =
    Mem-cards_of [] same compare_text no_number [] [] production all_environments [] name
      (cart ∷ []) cart_card
