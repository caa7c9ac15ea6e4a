-- ===== src/Search/Fields.antt =====
-- The static search fields of constants/fields.ts, with their names and operators, which are the
-- parts of a field that the query language reads.
pub mod Accepted
use otel_desktop_viewer.Prelude.{codes, List, [], ◌∷◌, ◌++◌}
use otel_desktop_viewer.ListPage.Sequence.{SignalName, traces, metrics, logs}
use otel_desktop_viewer.Search.Query.{
  Operator, equals, not_equals, greater_than, less_than, greater_than_or_equal, less_than_or_equal,
  regex, contains, not_contains, starts_with, ends_with, in_set, not_in_set, FieldDefinition,
  field_scope,
}

unfoldable pub span_fields : List FieldDefinition
span_fields =
    field_scope (codes "traceID") (equals ∷ not_equals ∷ [])
    ∷ field_scope (codes "traceState") (equals ∷ not_equals ∷ contains ∷ [])
    ∷ field_scope (codes "spanID") (equals ∷ not_equals ∷ [])
    ∷ field_scope (codes "parentSpanID") (equals ∷ not_equals ∷ [])
    ∷ field_scope (codes "name")
        (equals ∷ not_equals ∷ contains ∷ not_contains ∷ starts_with ∷ ends_with ∷ regex ∷ [])
    ∷ field_scope (codes "kind") (equals ∷ not_equals ∷ in_set ∷ not_in_set ∷ [])
    ∷ field_scope (codes "startTime") (
        equals ∷ not_equals ∷ greater_than ∷ less_than ∷ greater_than_or_equal ∷ less_than_or_equal
        ∷ [])
    ∷ field_scope (codes "endTime") (
        equals ∷ not_equals ∷ greater_than ∷ less_than ∷ greater_than_or_equal ∷ less_than_or_equal
        ∷ [])
    ∷ field_scope (codes "duration") (
        equals ∷ not_equals ∷ greater_than ∷ less_than ∷ greater_than_or_equal ∷ less_than_or_equal
        ∷ [])
    ∷ field_scope (codes "droppedAttributesCount")
        (equals ∷ not_equals ∷ greater_than ∷ less_than ∷ [])
    ∷ field_scope (codes "droppedEventsCount") (equals ∷ not_equals ∷ greater_than ∷ less_than ∷ [])
    ∷ field_scope (codes "droppedLinksCount") (equals ∷ not_equals ∷ greater_than ∷ less_than ∷ [])
    ∷ field_scope (codes "statusCode") (equals ∷ not_equals ∷ in_set ∷ not_in_set ∷ [])
    ∷ field_scope (codes "statusMessage")
        (equals ∷ not_equals ∷ contains ∷ not_contains ∷ regex ∷ [])
    ∷ field_scope (codes "event.name")
        (equals ∷ not_equals ∷ contains ∷ not_contains ∷ starts_with ∷ ends_with ∷ regex ∷ [])
    ∷ field_scope (codes "event.timestamp") (
        equals ∷ not_equals ∷ greater_than ∷ less_than ∷ greater_than_or_equal ∷ less_than_or_equal
        ∷ [])
    ∷ field_scope (codes "event.droppedAttributesCount")
        (equals ∷ not_equals ∷ greater_than ∷ less_than ∷ [])
    ∷ field_scope (codes "link.traceID") (equals ∷ not_equals ∷ [])
    ∷ field_scope (codes "link.spanID") (equals ∷ not_equals ∷ [])
    ∷ field_scope (codes "link.traceState") (equals ∷ not_equals ∷ contains ∷ not_contains ∷ [])
    ∷ field_scope (codes "link.droppedAttributesCount")
        (equals ∷ not_equals ∷ greater_than ∷ less_than ∷ [])
    ∷ []

unfoldable pub log_fields : List FieldDefinition
log_fields =
    field_scope (codes "timestamp") (
      equals ∷ not_equals ∷ greater_than ∷ less_than ∷ greater_than_or_equal ∷ less_than_or_equal
      ∷ [])
    ∷ field_scope (codes "observedTimestamp") (
        equals ∷ not_equals ∷ greater_than ∷ less_than ∷ greater_than_or_equal ∷ less_than_or_equal
        ∷ [])
    ∷ field_scope (codes "traceID") (equals ∷ not_equals ∷ [])
    ∷ field_scope (codes "spanID") (equals ∷ not_equals ∷ [])
    ∷ field_scope (codes "severityText") (equals ∷ not_equals ∷ in_set ∷ not_in_set ∷ [])
    ∷ field_scope (codes "severityNumber") (
        equals ∷ not_equals ∷ greater_than ∷ less_than ∷ greater_than_or_equal ∷ less_than_or_equal
        ∷ in_set ∷ not_in_set ∷ [])
    ∷ field_scope (codes "body")
        (equals ∷ not_equals ∷ contains ∷ not_contains ∷ starts_with ∷ ends_with ∷ regex ∷ [])
    ∷ field_scope (codes "droppedAttributesCount")
        (equals ∷ not_equals ∷ greater_than ∷ less_than ∷ [])
    ∷ field_scope (codes "flags") (equals ∷ not_equals ∷ [])
    ∷ field_scope (codes "eventName")
        (equals ∷ not_equals ∷ contains ∷ not_contains ∷ starts_with ∷ ends_with ∷ regex ∷ [])
    ∷ []

unfoldable pub metric_fields : List FieldDefinition
metric_fields =
    field_scope (codes "name")
      (equals ∷ not_equals ∷ contains ∷ not_contains ∷ starts_with ∷ ends_with ∷ regex ∷ [])
    ∷ field_scope (codes "description") (equals ∷ not_equals ∷ contains ∷ not_contains ∷ regex ∷ [])
    ∷ field_scope (codes "unit")
        (equals ∷ not_equals ∷ in_set ∷ not_in_set ∷ contains ∷ not_contains ∷ [])
    ∷ field_scope (codes "type") (equals ∷ not_equals ∷ in_set ∷ not_in_set ∷ [])
    ∷ field_scope (codes "received") (
        equals ∷ not_equals ∷ greater_than ∷ less_than ∷ greater_than_or_equal ∷ less_than_or_equal
        ∷ [])
    ∷ []

unfoldable pub scope_fields : List FieldDefinition
scope_fields =
    field_scope (codes "scope.name")
      (equals ∷ not_equals ∷ contains ∷ not_contains ∷ starts_with ∷ ends_with ∷ regex ∷ [])
    ∷ field_scope (codes "scope.version")
        (equals ∷ not_equals ∷ contains ∷ not_contains ∷ starts_with ∷ [])
    ∷ field_scope (codes "scope.droppedAttributesCount")
        (equals ∷ not_equals ∷ greater_than ∷ less_than ∷ [])
    ∷ []

unfoldable pub resource_fields : List FieldDefinition
resource_fields =
    field_scope (codes "resource.droppedAttributesCount")
      (equals ∷ not_equals ∷ greater_than ∷ less_than ∷ [])
    ∷ []

-- `baseFields` and the signal's own, as `getStaticFieldsForSearch` gives them.
unfoldable pub get_fields_by_signal : SignalName → List FieldDefinition
unfolding resource_fields scope_fields span_fields log_fields metric_fields
get_fields_by_signal traces = (resource_fields ++ scope_fields) ++ span_fields
get_fields_by_signal logs = (resource_fields ++ scope_fields) ++ log_fields
get_fields_by_signal metrics = (resource_fields ++ scope_fields) ++ metric_fields
