-- ===== src/Labeler/Constants.antt =====
-- .github/workflows/scripts/constants.py: label names, their colours and the user's commands.
use opendatahub_tests.Shared.{String, List, [], ◌∷◌, ◌++◌}

abbrev pub label_prefix : String
label_prefix = "/"

abbrev pub size_label_prefix : String
size_label_prefix = "size/"

abbrev pub wip_label : String
wip_label = "wip"

abbrev pub lgtm_label : String
lgtm_label = "lgtm"

abbrev pub verified_label : String
verified_label = "verified"

abbrev pub hold_label : String
hold_label = "hold"

abbrev pub lgtm_by : String
lgtm_by = "lgtm-by-"

abbrev pub changes_requested_by : String
changes_requested_by = "changes-requested-by-"

abbrev pub commented_by : String
commented_by = "commented-by-"

abbrev pub approved : String
approved = "approved"

-- The source joins a set, whose order is not fixed; no member is a prefix of another.
abbrev pub supported_labels : List String
supported_labels =
    "/wip" ∷ "/lgtm" ∷ "/verified" ∷ "/hold" ∷ "/build-push-pr-image" ∷ "/cherry-pick" ∷ []

abbrev pub cancel_action : String
cancel_action = "cancel"

abbrev pub default_label_color : String
default_label_color = "B60205"

abbrev pub user_labels_dict : List (String × String)
user_labels_dict =
    (hold_label, default_label_color)
    ∷ (verified_label, "0E8A16")
    ∷ (wip_label, default_label_color)
    ∷ (lgtm_label, "0E8A16")
    ∷ []

abbrev pub static_labels_dict : List (String × String)
static_labels_dict =
    user_labels_dict
    ++ (("size/l", "F5621C")
        ∷ ("size/m", "F09C74")
        ∷ ("size/s", "0E8A16")
        ∷ ("size/xl", "D93F0B")
        ∷ ("size/xs", "ededed")
        ∷ ("size/xxl", default_label_color)
        ∷ [])

abbrev pub dynamic_labels_dict : List (String × String)
dynamic_labels_dict =
    (lgtm_by, "DCED6F") ∷ (commented_by, "D93F0B") ∷ (changes_requested_by, "F5621C") ∷ []

abbrev pub all_labels_dict : List (String × String)
all_labels_dict = static_labels_dict ++ dynamic_labels_dict
