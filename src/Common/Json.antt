-- ===== src/Common/Json.antt =====
-- `encoding/json`: the values of its documents. Numbers keep their text.
pub mod Strings
pub mod Lexer
pub mod Parser
pub mod Quoting
pub mod Decode
pub mod Stream
use log_morph.Common.{String, Bool, Option, none, some, List, Error, message, Result, ok, err}

mutual
  pub data Json : Type 0 where
    null : Json
    boolean : Bool → Json
    number : String → Json
    text : String → Json
    array : Items → Json
    object : Members → Json

  pub data Items : Type 0 where
    no_items : Items
    item : Json → Items → Items

  -- in the order of the document, with any name more than once
  pub data Members : Type 0 where
    no_members : Members
    member : String → Json → Members → Members

-- at the end
abbrev pub add_item : Items → Json → Items
add_item no_items v = item v no_items
add_item (item w vs) v = item w (add_item vs v)

abbrev pub add_member : Members → String → Json → Members
add_member no_members k v = member k v no_members
add_member (member j w ms) k v = member j w (add_member ms k v)
