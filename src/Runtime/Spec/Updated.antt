-- ===== src/Runtime/Spec/Updated.antt =====
-- The formats and the annotations of a runtime.
use opendatahub_tests.Shared.{
  String, Bool, true, ◌&&◌, Option, none, some, [], ◌==◌, if◌then◌else◌, lookup, lookup-put, ◌≡◌,
  arith, Option-cases, inl, inr,
}
use opendatahub_tests.Runtime.Spec.{Dict, Arguments, annotate, set_default, update_annotations}

-- What an annotation is, where there may be none at all.
abbrev pub annotation : String → Option Dict → Option String
annotation k none = none
annotation k (some annotations) = lookup k annotations

annotation-annotate :
    (asked : Bool) (key value k : String) (m : Option Dict)
    → annotation k (annotate asked key value m)
      ≡ (if asked && key == k then some value else annotation k m)
unfolding annotate set_default
annotation-annotate asked key value k none = ground (arith, lookup-put key k value [])
annotation-annotate asked key value k (some m) = ground (arith, lookup-put key k value m)

-- The annotations of a runtime are the template's, but for the route and the authentication, if they
-- are asked for, and the protocol, if it is given.
pub annotation-update_annotations :
    (a : Arguments) (k : String) (m : Option Dict)
    → let others : Option String =
        if a.enable_auth && "enable-auth" == k
        then some "true"
        else if a.enable_external_route && "enable-route" == k
        then some "true"
        else annotation k m in
      annotation k (update_annotations a m) ≡ elim a.protocol as (λ _. Option String) [
        | none ↦ others
        | some p ↦ if "opendatahub.io/apiProtocol" == k then some p else others
      ]
unfolding update_annotations
annotation-update_annotations a k m =
    let first = annotate a.enable_external_route "enable-route" "true" m in
    let second = annotate a.enable_auth "enable-auth" "true" first in
    let route = annotation-annotate a.enable_external_route "enable-route" "true" k m in
    let auth = annotation-annotate a.enable_auth "enable-auth" "true" k first in
    elim (Option-cases a.protocol) [
      | inl e ↦ ground (arith, e, route, auth)
      | inr (p, e) ↦
          ground (
            arith,
            e,
            route,
            auth,
            annotation-annotate true "opendatahub.io/apiProtocol" p k second,
          )
    ]
