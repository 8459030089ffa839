-- ===== src/Channels.antt =====
-- src/openmuse/channels/base.py, src/openmuse/channels/web.py: the in-process web channel.
use openmuse.Common.{ℕ, String, Text, Option, none, some, List, [], ◌∷◌, ◌++◌, length}

pub record IncomingMessage : Type 0 where
  pub channel : String
  pub conversation_id : String
  pub sender_id : String
  pub text : Text

pub record WebChannel : Type 0 where
  pub inbox : List IncomingMessage
  pub outbox : List (String × Text)

unfoldable pub submit : WebChannel → String → String → Text → WebChannel
submit c conversation_id sender_id text = record c {
  inbox =
      c.inbox
      ++ record {
        channel = "web";
        conversation_id = conversation_id;
        sender_id = sender_id;
        text = text;
      }
        ∷ [];
}

unfoldable pub receive : WebChannel → Option IncomingMessage × WebChannel
receive c = elim c.inbox [ [] ↦ (none, c) | m ∷ rest ↦ (some m, record c { inbox = rest }) ]

-- `send`, whose receipt names the number of messages sent
unfoldable pub send : WebChannel → String → Text → ℕ × WebChannel
send c conversation_id text =
    let outbox = c.outbox ++ (conversation_id, text) ∷ [] in
    (length outbox, record c { outbox = outbox })
