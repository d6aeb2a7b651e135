-- ===== src/Labeler/Client.antt =====
-- The client of the code host (a third-party package) as an interface, and the two methods of
-- pr_workflow.py that write labels through it. What the script asks for is a history of calls,
-- newest first; what the host answers depends on the calls that it has had.
pub mod Laws
use opendatahub_tests.Shared.{
  ℕ, String, ◌≡◌, Bool, true, false, ◌&&◌, ◌||◌, not, Option, none, some, List, [], ◌∷◌, ◌==◌,
  if◌then◌else◌, has, starts_with,
}
use opendatahub_tests.Labeler.Constants.{all_labels_dict, default_label_color}

pub data Call : Type 0 where
  edit_label create_label : String → String → Call
  add_to_labels remove_from_labels : String → Call
  approve_review : Call
  dismiss_review : ℕ → Call
  issue_comment : Call
  add_to_assignees : String → Call

pub record HostReview : Type 0 where
  pub id : ℕ
  pub login : String
  pub state : String

-- The host: the repository's labels with their colours, the labels on the pull request, the
-- contributors' team, and who the script runs as.
pub record Host : Type 0 where
  pub get_label : List Call → String → Option (String × String)
  pub on_pr : List Call → String → Bool
  pub is_member : Option String → Bool
  pub can_assign : String → Bool
  pub current_user : String
  pub reviews : List HostReview

abbrev pub writes_pr_labels : Call → Bool
writes_pr_labels (add_to_labels l) = true
writes_pr_labels (remove_from_labels l) = true
writes_pr_labels _ = false

-- What the host documents of labels: adding and removing act on the named label alone, the label
-- found by name has that name, and a created or edited label has the colour that was given.
pub record IsLabelStore (host : Host) (snapshot : List String) : Type 0 where
  pub at_start : (j : String) → host.on_pr [] j ≡ has snapshot j
  pub after_add :
      (h : List Call) (l j : String)
      → host.on_pr (add_to_labels l ∷ h) j ≡ (l == j || host.on_pr h j)
  pub after_remove :
      (h : List Call) (l j : String)
      → host.on_pr (remove_from_labels l ∷ h) j ≡ (not (l == j) && host.on_pr h j)
  pub after_other :
      (h : List Call) (c : Call) (j : String)
      → writes_pr_labels c ≡ false
      → host.on_pr (c ∷ h) j ≡ host.on_pr h j
  pub found_name : (h : List Call) (l n c : String) → host.get_label h l ≡ some (n, c) → n ≡ l
  pub after_create :
      (h : List Call) (l c : String) → host.get_label (create_label l c ∷ h) l ≡ some (l, c)
  pub after_edit :
      (h : List Call) (l c : String) → host.get_label (edit_label l c ∷ h) l ≡ some (l, c)

-- The comprehension over `ALL_LABELS_DICT.items()`, and its first element.
unfoldable pub first_color : List (String × String) → String → String
first_color [] label = default_label_color
first_color ((prefix, color) ∷ dict) label =
    if starts_with label prefix then color else first_color dict label

unfoldable pub label_color : String → String
unfolding first_color
label_color label = first_color all_labels_dict label

unfoldable pub set_label_in_repository : Host → String → List Call → List Call
set_label_in_repository host label calls = elim (host.get_label calls label) [
  | none ↦ create_label label (label_color label) ∷ calls
  | some (name, color) ↦
      if color == label_color label then calls else edit_label name (label_color label) ∷ calls
]

unfoldable pub add_pr_label : Host → String → List Call → List Call
add_pr_label host label calls = add_to_labels label ∷ set_label_in_repository host label calls
