-- ===== src/Conversation/Message.antt =====
-- The messages of src/luna_agent/models/messages.py, and how src/luna_agent/conversation/ledger.py
-- writes and reads them. The free-form metadata of a part is a type of its own, with its empty
-- value. The `json` module is an argument: `dumps` of a message's dict, and `loads`, which may raise.
use luna_agent.Prelude.{
  String, ◌≡◌, refl, arith, false, Option, none, some, List, [], ◌∷◌, map, ◌==◌, String_eq,
  if◌then◌else◌, is_empty,
}
use luna_agent.Prelude.Dict.{Dict}

pub record MessagePart (M : Type 0) : Type 0 where
  pub type : String
  pub text : String
  pub url : String
  pub path : String
  pub file_id : String
  pub artifact_id : String
  pub name : String
  pub mime_type : String
  pub metadata : M

pub record OutboundMessage (M : Type 0) : Type 0 where
  pub parts : List (MessagePart M)

-- A value of a part's dict.
pub data Value (M : Type 0) : Type 0 where
  str : String → Value M
  dict : M → Value M

pub record Json (M : Type 0) : Type 0 where
  pub dumps : List (Dict String (Value M)) → String
  pub loads : String → Option (List (Dict String (Value M)))
  pub no_metadata : M

module _ {M : Type 0} where
  unfoldable pub as_dict : MessagePart M → Dict String (Value M)
  as_dict p =
      ("type", str p.type)
      ∷ ("text", str p.text)
      ∷ ("url", str p.url)
      ∷ ("path", str p.path)
      ∷ ("file_id", str p.file_id)
      ∷ ("artifact_id", str p.artifact_id)
      ∷ ("name", str p.name)
      ∷ ("mime_type", str p.mime_type)
      ∷ ("metadata", dict p.metadata)
      ∷ []

  unfoldable pub message_dict : OutboundMessage M → List (Dict String (Value M))
  message_dict m = map as_dict m.parts

module _ {M : Type 0} (json : Json M) where
  -- `MessagePart(**part)`: an unknown name raises.
  unfoldable pub set_field : MessagePart M → String × Value M → Option (MessagePart M)
  set_field p (name, Value.str s) =
      if name == "type"
      then some (record p { type = s })
      else if name == "text"
      then some (record p { text = s })
      else if name == "url"
      then some (record p { url = s })
      else if name == "path"
      then some (record p { path = s })
      else if name == "file_id"
      then some (record p { file_id = s })
      else if name == "artifact_id"
      then some (record p { artifact_id = s })
      else if name == "name"
      then some (record p { name = s })
      else if name == "mime_type"
      then some (record p { mime_type = s })
      else none
  set_field p (name, Value.dict m) =
      if name == "metadata" then some (record p { metadata = m }) else none

  unfoldable pub set_fields : MessagePart M → Dict String (Value M) → Option (MessagePart M)
  set_fields p [] = some p
  set_fields p (entry ∷ d) = elim (set_field p entry) [ none ↦ none | some q ↦ set_fields q d ]

  abbrev pub empty_part : MessagePart M
  empty_part = record {
    type = "text";
    text = "";
    url = "";
    path = "";
    file_id = "";
    artifact_id = "";
    name = "";
    mime_type = "";
    metadata = json.no_metadata;
  }

  unfoldable pub parts_of : List (Dict String (Value M)) → Option (List (MessagePart M))
  parts_of [] = some []
  parts_of (d ∷ ds) = elim (set_fields empty_part d) [
    | none ↦ none
    | some p ↦ elim (parts_of ds) [ none ↦ none | some ps ↦ some (p ∷ ps) ]
  ]

  -- The message of a row; the outer Option is a parse that raised.
  unfoldable pub message_of : String → Option (Option (OutboundMessage M))
  message_of text = if is_empty text then some none else elim (json.loads text) [
    | none ↦ none
    | some ds ↦ elim (parts_of ds) [ none ↦ none | some ps ↦ some (some (record { parts = ps })) ]
  ]

  unfoldable pub message_json : Option (OutboundMessage M) → String
  message_json none = ""
  message_json (some m) = json.dumps (message_dict m)

-- What `json` promises of a message: its text is not empty, and is read back.
unfoldable pub ReadsBack : {M : Type 0} → Json M → Option (OutboundMessage M) → Type 0
ReadsBack json none = Unit
ReadsBack json (some m) =
    (json.loads (json.dumps (message_dict m)) ≡ some (message_dict m))
    × (is_empty (json.dumps (message_dict m)) ≡ false)

module _ {M : Type 0} (json : Json M) where
  set_fields-as_dict : (p : MessagePart M) → set_fields json (empty_part json) (as_dict p) ≡ some p
  unfolding set_fields set_field as_dict
  set_fields-as_dict p = refl

  parts_of-map : (ps : List (MessagePart M)) → parts_of json (map as_dict ps) ≡ some ps
  unfolding parts_of
  parts_of-map [] = refl
  parts_of-map (p ∷ ps) = ground (arith, set_fields-as_dict p, parts_of-map ps)

  pub message_of-message_json :
      (m : Option (OutboundMessage M))
      → ReadsBack json m
      → message_of json (message_json json m) ≡ some m
  unfolding message_of message_json message_dict ReadsBack
  message_of-message_json none h = refl
  message_of-message_json (some m) h = ground (arith, h, parts_of-map m.parts)
