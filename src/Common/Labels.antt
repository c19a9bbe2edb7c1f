-- ===== src/Common/Labels.antt =====
-- GetLabels of pkg/splunk/common/util.go, and GetLabelTypes of pkg/splunk/common/names.go.
use infra_devops.Base.{
  String, if◌then◌else◌, str_eq, Option, none, some, List, [], ◌∷◌, message, Err,
}
use infra_devops.Base.Text.{◌<>◌}
use infra_devops.Base.Dict.{Dict, insert, lookup, or_empty}

unfoldable pub get_label_types : Dict String
get_label_types =
    ("manager", "app.kubernetes.io/managed-by")
    ∷ ("component", "app.kubernetes.io/component")
    ∷ ("name", "app.kubernetes.io/name")
    ∷ ("partof", "app.kubernetes.io/part-of")
    ∷ ("instance", "app.kubernetes.io/instance")
    ∷ []

-- labelTypeMap[kind]
unfoldable pub label_type : String → String
unfolding get_label_types lookup
label_type kind = or_empty (lookup kind get_label_types)

module _ (component name instance_identifier part_of : String) where
  -- A round of the loop over the selected labels; an unknown one leaves an error.
  unfoldable pub select_label : String → Dict String × Option Err → Dict String × Option Err
  unfolding label_type
  select_label s (labels, e) =
      if str_eq s "manager"
      then (insert (label_type "manager") "splunk-operator" labels, e)
      else if str_eq s "component"
      then (insert (label_type "component") component labels, e)
      else if str_eq s "name"
      then (insert (label_type "name") name labels, e)
      else if str_eq s "partof"
      then (insert (label_type "partof") ("splunk-" <> part_of <> "-" <> component) labels, e)
      else if str_eq s "instance"
      then (
        if str_eq instance_identifier ""
            then labels
            else insert (label_type "instance") ("splunk-" <> instance_identifier <> "-" <> name)
                labels,
        e,
      )
      else (labels, some (message ("Incorrect label type " <> s)))

  unfoldable pub select_labels : List String → Dict String × Option Err → Dict String × Option Err
  unfolding select_label
  select_labels [] acc = acc
  select_labels (s ∷ rest) acc = select_labels rest (select_label s acc)

  unfoldable pub get_labels : List String → Dict String × Option Err
  unfolding select_labels label_type
  get_labels [] =
      let labels = insert (label_type "partof") ("splunk-" <> part_of <> "-" <> component) (
        insert (label_type "name") name (
          insert (label_type "component") component
            (insert (label_type "manager") "splunk-operator" []))) in
      (
        if str_eq instance_identifier ""
            then labels
            else insert (label_type "instance") ("splunk-" <> instance_identifier <> "-" <> name)
                labels,
        none,
      )
  get_labels (s ∷ rest) = select_labels (s ∷ rest) ([], none)
