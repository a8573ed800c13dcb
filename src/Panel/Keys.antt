-- ===== src/Panel/Keys.antt =====
-- The keys of diff tabs.
use racemo.Base.{ℕ, ◌≡◌, Bool, true, some, ◌∷◌, ◌++◌, Text}
use mathlib.Core.List.{append_assoc}
use racemo.Tabs.{find_tab_index_by_path}
use racemo.Panel.{PanelState, panel_paths, diff_key, open_diff_tab}

-- Two different files whose keys are the same text: the directory of one ends where a colon stands in
-- the name of the other.
pub diff_key_clash :
    (a b c : Text) (staged : Bool)
    → diff_key (a ++ (b':' ∷ b)) c staged ≡ diff_key a (b ++ (b':' ∷ c)) staged
unfolding diff_key
diff_key_clash a b c staged = rw (append_assoc a (b':' ∷ b), append_assoc b (b':' ∷ c))

-- While a diff is open, opening that of another file shows the first one, if the directory of one
-- ends where a colon stands in the name of the other.
pub open_diff_tab-clash :
    (a b c : Text) (staged : Bool) (s : PanelState) {i : ℕ}
    → find_tab_index_by_path (panel_paths s) (diff_key (a ++ (b':' ∷ b)) c staged) ≡ some i
    → open_diff_tab a (b ++ (b':' ∷ c)) staged s ≡ record s { active_index = i; panel_open = true }
unfolding open_diff_tab
open_diff_tab-clash a b c staged s h = rw (← diff_key_clash a b c staged, h)
