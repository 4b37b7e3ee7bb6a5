-- ===== src/Verifier/Filters.antt =====
-- `filterEvents`, `matchesWhere` and `filterAttestations` of pkg/verifier/helpers.go.
use intentproof_tools.Prelude.{
  String, List, [], ◌∷◌, Bool, true, false, ◌&&◌, ◌||◌, Option, none, some, ◌==◌, Eq-String,
  if◌then◌else◌, any, keep,
}
use intentproof_tools.Value.{Value, Items, Fields, get, items, as_string, as_items}
use intentproof_tools.Value.Number.{values_equal}
use intentproof_tools.Verifier.Types.{Event, Attestation}

-- The guard on `where["status"]`.
status_ok : Option String → Event → Bool
status_ok none e = true
status_ok (some status) e = e.status == status

-- The guard on `where["equals"]`, at the value of the attribute.
equals_ok : Option Value → Option Value → Bool
equals_ok none val = true
equals_ok (some equals) none = false
equals_ok (some equals) (some val) = values_equal val equals

-- The guard on `where["in"]`.
in_ok : Option Items → Option Value → Bool
in_ok none val = true
in_ok (some candidates) none = false
in_ok (some candidates) (some val) = any (values_equal val) (items candidates)

attribute_ok : Option String → Fields → Event → Bool
attribute_ok none w e = true
attribute_ok (some attr) w e =
    equals_ok (get "equals" w) (get attr e.attributes)
    && in_ok (as_items (get "in" w)) (get attr e.attributes)

unfoldable pub matches_where : Event → Fields → Bool
unfolding status_ok attribute_ok equals_ok in_ok
matches_where e w =
    status_ok (as_string (get "status" w)) e && attribute_ok (as_string (get "attribute" w)) w e

where_ok : Option Fields → Event → Bool
where_ok none e = true
where_ok (some w) e = matches_where e w

-- The two guards of the loop of `filterEvents`.
unfoldable pub event_matches : String → Option Fields → Event → Bool
unfolding where_ok
event_matches action w e = (action == "" || e.action == action) && where_ok w e

unfoldable pub filter_events : List Event → String → Option Fields → List Event
filter_events [] action w = []
filter_events (e ∷ events) action w =
    if event_matches action w e
    then e ∷ filter_events events action w
    else filter_events events action w

unfoldable pub attestation_matches : String → String → Attestation → Bool
attestation_matches claim source_id a =
    a.claim == claim && (source_id == "" || a.source_id == source_id)

unfoldable pub filter_attestations : List Attestation → String → String → List Attestation
filter_attestations atts claim source_id = keep (attestation_matches claim source_id) atts
