-- ===== src/Protocol/Events/Validate.antt =====
-- crates/mews-protocol/src/domain/events.rs: JournalEntry::validate, JournalSubject::validate and
-- JournalEvent::validate_subject_id.
use mathlib.Core.Logic.{ite}
use text.Mathlib.Text.{◌==◌ as str_eq}
use text.Mathlib.TextEquality.{eq_iff}
use mews.Prelude.{
  String, ◌≡◌, refl, sym, ap, ◌∙◌, Bool, true, false, not, ◌||◌, ◌==◌, if◌then◌else◌, Option, none,
  some,
}
use mews.Protocol.Events.Journal.{
  JournalSubjectType, JournalEventType, JournalEvent, JournalEntry, JournalSubject, subject_type,
  event_type,
}
use mews.Protocol.Events.Names.{
  event_as_str, event_from_str, event_from_str-as_str, subject_as_str, subject_from_str,
  subject_from_str-as_str,
}
use mews.Protocol.Values.{Uid, IdKind, IdText, id_text, malformed}

-- Equality by a test that computes.
unfoldable decided :
    {A : Type 0} (a b : A) (t : Bool) → (t ≡ true → a ≡ b) → (a ≡ b → t ≡ true) → Dec (a ≡ b)
decided a b true h k = yes (h refl)
decided a b false h k = no (λ e. absurd (cc (k e)))

some-injective : {A : Type 0} (a b : A) → some a ≡ some b → a ≡ b
some-injective a b h = cc

pub event_type-same :
    (a b : JournalEventType) → str_eq (event_as_str a) (event_as_str b) ≡ true → a ≡ b
event_type-same a b h = some-injective a b (
    sym (event_from_str-as_str a)
    ∙ ap event_from_str ((eq_iff (event_as_str a) (event_as_str b)).0 h)
    ∙ event_from_str-as_str b)

unfoldable pub JournalEventType-discrete : Discrete JournalEventType
unfolding decided event_as_str
JournalEventType-discrete a b =
    decided a b (str_eq (event_as_str a) (event_as_str b)) (event_type-same a b)
      (λ e. (eq_iff (event_as_str a) (event_as_str b)).1 (ap event_as_str e))

pub subject_type-same :
    (a b : JournalSubjectType) → str_eq (subject_as_str a) (subject_as_str b) ≡ true → a ≡ b
subject_type-same a b h = some-injective a b (
    sym (subject_from_str-as_str a)
    ∙ ap subject_from_str ((eq_iff (subject_as_str a) (subject_as_str b)).0 h)
    ∙ subject_from_str-as_str b)

unfoldable pub JournalSubjectType-discrete : Discrete JournalSubjectType
unfolding decided subject_as_str
JournalSubjectType-discrete a b =
    decided a b (str_eq (subject_as_str a) (subject_as_str b)) (subject_type-same a b)
      (λ e. (eq_iff (subject_as_str a) (subject_as_str b)).1 (ap subject_as_str e))

-- The text before the `_` of an ID.
unfoldable pub id_prefix : IdKind → String
id_prefix IdKind.ins = "ins"
id_prefix IdKind.hst = "hst"
id_prefix IdKind.agt = "agt"
id_prefix IdKind.ses = "ses"
id_prefix IdKind.msg = "msg"
id_prefix IdKind.turn = "turn"
id_prefix IdKind.inv = "inv"
id_prefix IdKind.req = "req"
id_prefix IdKind.con = "con"
id_prefix IdKind.evt = "evt"
id_prefix IdKind.op = "op"

prefix_kind : String → Option IdKind
prefix_kind s =
    if str_eq s "ins"
    then some IdKind.ins
    else if str_eq s "hst"
    then some IdKind.hst
    else if str_eq s "agt"
    then some IdKind.agt
    else if str_eq s "ses"
    then some IdKind.ses
    else if str_eq s "msg"
    then some IdKind.msg
    else if str_eq s "turn"
    then some IdKind.turn
    else if str_eq s "inv"
    then some IdKind.inv
    else if str_eq s "req"
    then some IdKind.req
    else if str_eq s "con"
    then some IdKind.con
    else if str_eq s "evt"
    then some IdKind.evt
    else some IdKind.op

prefix_kind-id_prefix : (k : IdKind) → prefix_kind (id_prefix k) ≡ some k
unfolding prefix_kind id_prefix
prefix_kind-id_prefix IdKind.ins = refl
prefix_kind-id_prefix _ = refl

pub id_kind-same : (a b : IdKind) → str_eq (id_prefix a) (id_prefix b) ≡ true → a ≡ b
id_kind-same a b h = some-injective a b (
    sym (prefix_kind-id_prefix a)
    ∙ ap prefix_kind ((eq_iff (id_prefix a) (id_prefix b)).0 h)
    ∙ prefix_kind-id_prefix b)

unfoldable pub IdKind-discrete : Discrete IdKind
unfolding decided id_prefix
IdKind-discrete a b =
    decided a b (str_eq (id_prefix a) (id_prefix b)) (id_kind-same a b)
      (λ e. (eq_iff (id_prefix a) (id_prefix b)).1 (ap id_prefix e))

-- One constructor for each message.
pub data JournalError : Type 0 where
  type_mismatch subject_type_mismatch invalid_subject_id : JournalError
  installation_mismatch host_mismatch agent_mismatch session_mismatch : JournalError

-- `value.parse::<KindId>().is_ok()`
unfoldable pub parses_as : IdKind → IdText → Bool
parses_as kind (id_text k i) = ite (IdKind-discrete k kind) true false
parses_as kind (malformed t) = false

-- `id.as_str() == value`
unfoldable pub is_text_of : IdKind → Uid → IdText → Bool
is_text_of kind id (id_text k i) = ite (IdKind-discrete k kind) (i == id) false
is_text_of kind id (malformed t) = false

-- The ID type of the subjects of each type.
abbrev pub id_kind : JournalSubjectType → IdKind
id_kind JournalSubjectType.installation = IdKind.ins
id_kind JournalSubjectType.host = IdKind.hst
id_kind JournalSubjectType.agent = IdKind.agt
id_kind JournalSubjectType.session = IdKind.ses

unfoldable pub validate_subject : JournalSubject → Option JournalError
unfolding parses_as
validate_subject s =
    if parses_as (id_kind s.kind) s.id then none else some JournalError.invalid_subject_id

unfoldable pub validate_subject_id : JournalEvent → IdText → Option JournalError
unfolding is_text_of
validate_subject_id (JournalEvent.installation_created installation) subject_id =
    if is_text_of IdKind.ins installation.id subject_id
    then none
    else some JournalError.installation_mismatch
validate_subject_id (JournalEvent.host_enrolled host) subject_id =
    if is_text_of IdKind.hst host.id subject_id then none else some JournalError.host_mismatch
validate_subject_id (JournalEvent.host_revoked host_id) subject_id =
    if is_text_of IdKind.hst host_id subject_id then none else some JournalError.host_mismatch
validate_subject_id (JournalEvent.agent_created agent initial_revision) subject_id =
    if not (is_text_of IdKind.agt agent.id subject_id)
      || not (is_text_of IdKind.agt initial_revision.agent_id subject_id)
    then some JournalError.agent_mismatch
    else none
validate_subject_id (JournalEvent.agent_revision_created revision) subject_id =
    if is_text_of IdKind.agt revision.agent_id subject_id
    then none
    else some JournalError.agent_mismatch
validate_subject_id (JournalEvent.session_created session) subject_id =
    if is_text_of IdKind.ses session.id subject_id then none else some JournalError.session_mismatch
validate_subject_id (JournalEvent.acp_binding_changed binding) subject_id =
    if is_text_of IdKind.ses binding.session_id subject_id
    then none
    else some JournalError.session_mismatch
validate_subject_id _ subject_id = none

-- `?` on a check that returns no value: the first error, or the rest.
infixr 20 ◌or_else◌
abbrev pub ◌or_else◌ {ℓ} : {E : Type ℓ} → Option E → Option E → Option E
none or_else rest = rest
some e or_else rest = some e

-- JournalEntry::validate; `none` is `Ok(())`.
unfoldable pub validate : JournalEntry → Option JournalError
unfolding validate_subject
validate e =
    ite (JournalEventType-discrete e.event_type (event_type e.payload)) none
      (some JournalError.type_mismatch)
    or_else ite (JournalSubjectType-discrete e.subject.kind (subject_type e.payload)) none
        (some JournalError.subject_type_mismatch)
    or_else validate_subject e.subject
    or_else validate_subject_id e.payload e.subject.id
