-- ===== src/CloudClient/Cjson.antt =====
-- The calls of cJSON that components/switchbot_keypad_bridge/cloud_client.cpp and pairing_ui.cpp make, and the
-- envelope around each answer of the SwitchBot API.
use switchbot_keypad_bridge.Common.{
  Bool, true, false, ◌&&◌, Option, none, some, List, [], if◌then◌else◌, is_nil, ℤ, ◌==ℤ◌, pos,
  negsuc, Bytes, text,
}

-- `parse` is none for a text that is no JSON; `item` looks up a member by its exact name. A string is none where
-- the node is none or its text null, a number its `valueint`. `print_texts` is the printed object of some text
-- members, or none when memory ran out.
pub record Cjson : Type 1 where
  pub Node : Type 0
  pub parse : Bytes → Option Node
  pub item : Node → Bytes → Option Node
  pub text_of : Node → Option Bytes
  pub int_of : Node → Option ℤ
  pub elements : Node → Option (List Node)
  pub is_object : Node → Bool
  pub print_texts : List (Bytes × Bytes) → Option Bytes

abbrev pub int_or : Option ℤ → ℤ → ℤ
int_or none d = d
int_or (some n) d = n

abbrev pub text_or : Option Bytes → Bytes → Bytes
text_or none d = d
text_or (some t) d = t

module _ (cjson : Cjson) where
  open cjson use {Node, parse, item, text_of, int_of}

  -- `cJSON_GetObjectItemCaseSensitive`, which takes and returns null pointers.
  abbrev pub item? : Option Node → Bytes → Option Node
  item? none name = none
  item? (some node) name = item node name

  abbrev pub text? : Option Node → Option Bytes
  text? none = none
  text? (some node) = text_of node

  abbrev pub int? : Option Node → Option ℤ
  int? none = none
  int? (some node) = int_of node

  pub record Envelope : Type 0 where
    pub root : Option Node
    pub status_code : ℤ
    pub message : Bytes

  unfoldable pub open_envelope : Bytes → Envelope
  open_envelope raw =
      let root = parse raw in
      record {
        root = root;
        status_code = int_or (int? (item? root (text "statusCode"))) (negsuc 0);
        message = text_or (text? (item? root (text "message"))) [];
      }

  abbrev pub is_json : Envelope → Bool
  is_json env = elim env.root [ none ↦ false | some node ↦ true ]

  abbrev pub is_ok : Envelope → Bool
  is_ok env = is_json env && (env.status_code ==ℤ pos 100)

  abbrev pub error_or : Envelope → Bytes → Bytes
  error_or env fallback = if is_nil env.message then fallback else env.message

  abbrev pub body_item : Envelope → Bytes → Option Node
  body_item env name = item? (item? env.root (text "body")) name

  -- The answer is opened; one that is no JSON, or not of the API's success code 100, is an error.
  unfoldable pub check_envelope : Bytes → Bytes → Bytes → Option Bytes × Envelope
  check_envelope not_json rejected raw =
      let env = open_envelope raw in
      if is_json env
      then (if is_ok env then (none, env) else (some (error_or env rejected), env))
      else (some not_json, env)

  -- `extract_json_str` of pairing_ui.cpp
  unfoldable pub extract_json_str : Bytes → Bytes → Bytes
  extract_json_str body name = text_or (text? (item? (parse body) name)) []
