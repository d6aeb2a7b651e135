-- ===== src/Llm/Access/Urls.antt =====
-- The URL of a service.
use opendatahub_tests.Shared.{
  String, true, false, Option, none, some, List, [], ◌∷◌, ◌==◌, join, given, ◌≡◌, refl,
  if◌then◌else◌, sym, ◌∙◌, arith, Option-cases, Bool-cases, inl, inr, same_text,
}
use text.Mathlib.TextLemmas.{cons-append, nil≢cons}
use opendatahub_tests.Cluster.Errors.{Lookup, ok, err}
use opendatahub_tests.Llm.Access.{
  Status, first_address, status_url, cluster_url, get_llm_inference_url,
}

http-join : (s : String) → (join "http://" s == "") ≡ false
http-join s = elim (Bool-cases (join "http://" s == "")) [
  | inl e ↦ absurd (nil≢cons (sym (same_text (join "http://" s) "" e) ∙ cons-append "h" "ttp://" s))
  | inr e ↦ e
]

cluster_url_lem : (service namespace : String) → (cluster_url service namespace == "") ≡ false
unfolding cluster_url
cluster_url_lem service namespace =
    http-join (join service (join "." (join namespace ".svc.cluster.local")))

given-nonempty : (url : String) → given (some url) ≡ true → (url == "") ≡ false
given-nonempty url h = elim (Bool-cases (url == "")) [ inl e ↦ ground (arith, e, h) | inr e ↦ e ]

first_address-given :
    (urls : List (Option String)) (url : String)
    → first_address urls ≡ some url
    → given (some url) ≡ true
unfolding first_address
first_address-given [] url h = ground (arith, h)
first_address-given (none ∷ rest) url h = ground (arith, h)
first_address-given (some u ∷ rest) url h = ground (arith, h)

status_url-given : (s : Status) (url : String) → status_url s ≡ some url → given (some url) ≡ true
unfolding status_url
status_url-given s url h = elim (Option-cases s.url) [
  | inl e ↦ elim (Option-cases (first_address s.addresses)) [
    | inl f ↦ ground (arith, e, f, h)
    | inr (u, f) ↦ ground (arith, e, f, h, first_address-given s.addresses u f)
  ]
  | inr (v, e) ↦ elim (Option-cases (first_address s.addresses)) [
    | inl f ↦ ground (arith, e, f, h)
    | inr (u, f) ↦ ground (arith, e, f, h, first_address-given s.addresses u f)
  ]
]

no_status :
    (services : Lookup (List String)) (name namespace : String)
    → (get_llm_inference_url none services name namespace == "") ≡ false
unfolding get_llm_inference_url
no_status (err raised) name namespace = cluster_url_lem name namespace
no_status (ok []) name namespace = cluster_url_lem name namespace
no_status (ok (s ∷ rest)) name namespace = cluster_url_lem s namespace

url-nonempty :
    (status : Option Status) (services : Lookup (List String)) (name namespace : String)
    → (get_llm_inference_url status services name namespace == "") ≡ false
unfolding get_llm_inference_url
url-nonempty none services name namespace = no_status services name namespace
url-nonempty (some status) services name namespace = elim (Option-cases (status_url status)) [
  | inl e ↦ rw (e, get_llm_inference_url) (no_status services name namespace)
  | inr (url, e) ↦
      rw (e, get_llm_inference_url) (given-nonempty url (status_url-given status url e))
]

-- The first text that is given, or the last resort.
abbrev pub first_given : List (Option String) → String → String
first_given [] last_resort = last_resort
first_given (none ∷ rest) last_resort = first_given rest last_resort
first_given (some url ∷ rest) last_resort = if url == "" then first_given rest last_resort else url

abbrev pub head_of : List (Option String) → Option String
head_of [] = none
head_of (url ∷ rest) = url

-- The URL of the first address, of a status that has an address.
abbrev pub address_of : Option Status → Option String
address_of none = none
address_of (some s) = head_of s.addresses

abbrev pub legacy_of : Option Status → Option String
legacy_of none = none
legacy_of (some s) = s.url

-- The service that the look-up finds, or the given one if it finds none or raises.
abbrev pub found_or : Lookup (List String) → String → String
found_or (ok (service ∷ rest)) name = service
found_or _ name = name

internal_url :
    (services : Lookup (List String)) (name namespace : String)
    → get_llm_inference_url none services name namespace
      ≡ join "http://"
          (join (found_or services name) (join "." (join namespace ".svc.cluster.local")))
unfolding get_llm_inference_url cluster_url
internal_url (err raised) name namespace = refl
internal_url (ok []) name namespace = refl
internal_url (ok (s ∷ rest)) name namespace = refl

fields-first_given :
    (addresses : List (Option String)) (url : Option String) (last_resort : String)
    → elim (status_url (record { addresses = addresses; url = url })) as (λ _. String) [
      | none ↦ last_resort
      | some u ↦ u
    ]
      ≡ first_given (head_of addresses ∷ url ∷ []) last_resort
unfolding status_url first_address
fields-first_given [] none last_resort = ground arith
fields-first_given [] (some u) last_resort = ground arith
fields-first_given (none ∷ rest) none last_resort = ground arith
fields-first_given (none ∷ rest) (some u) last_resort = ground arith
fields-first_given (some a ∷ rest) none last_resort = ground arith
fields-first_given (some a ∷ rest) (some u) last_resort = ground arith

url-first_given :
    (status : Option Status) (services : Lookup (List String)) (name namespace : String)
    → get_llm_inference_url status services name namespace
      ≡ first_given (address_of status ∷ legacy_of status ∷ []) (
          join "http://"
            (join (found_or services name) (join "." (join namespace ".svc.cluster.local"))))
unfolding get_llm_inference_url cluster_url
url-first_given none services name namespace = internal_url services name namespace
url-first_given (some s) (err raised) name namespace =
    fields-first_given s.addresses s.url (cluster_url name namespace)
url-first_given (some s) (ok []) name namespace =
    fields-first_given s.addresses s.url (cluster_url name namespace)
url-first_given (some s) (ok (service ∷ rest)) name namespace =
    fields-first_given s.addresses s.url (cluster_url service namespace)

-- The URL is that of the status's first address, if it is given and not empty; otherwise the status's
-- own, likewise; and otherwise that of the first service that the look-up finds, or of the service's
-- name if it finds none or raises an error. It is never empty.
pub get_llm_inference_url_lem :
    (status : Option Status) (services : Lookup (List String)) (name namespace : String)
    → (get_llm_inference_url status services name namespace
        ≡ first_given (address_of status ∷ legacy_of status ∷ []) (
            join "http://"
              (join (found_or services name) (join "." (join namespace ".svc.cluster.local")))))
      × ((get_llm_inference_url status services name namespace == "") ≡ false)
get_llm_inference_url_lem status services name namespace =
    (url-first_given status services name namespace, url-nonempty status services name namespace)
