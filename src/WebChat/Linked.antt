-- ===== src/WebChat/Linked.antt =====
-- Every pending request is one that the service will decide (web_chat.py, approval_service.py).
use openmuse.Common.{
  ℕ, String, Text, ◌≡◌, inl, inr, sym, ap, ◌∙◌, false, some, List, [], ◌∷◌, arith, ok, Bool-cases,
  ◌==◌, eq_iff, lookup, insert, lookup-erase, lookup-insert,
}
use openmuse.Models.{Action}
use openmuse.ApprovalService.{ApprovalRequest, Table, session_of, create}
use openmuse.ApprovalService.Create.{create-Created}
use openmuse.ApprovalService.Decide.{decide-Decided}
use openmuse.Core.{Times}
use openmuse.WebChat.{
  WebHost, Pending, ChatSession, Setup, Draws, action_object, own_action, destination, handle,
  decide,
}
use openmuse.WebChat.Rounds.{Keeps, handle-keeps}
use openmuse.WebChat.Decides.{decide-pending}
use openmuse.WebChat.Once.{Call, serve_all}

module _ (w : WebHost) {P : Type 0} (u : Setup w P) where
  -- The service's row of a pending request: waiting, with the pending action and the pending session.
  pub record Link (id : String) (p : Pending) (t : Table) : Type 0 where
    pub row : ApprovalRequest
    pub found : lookup id t ≡ some row
    pub named : row.id ≡ id
    pub waits : row.status ≡ "pending"
    pub action_json : row.action_json ≡ w.runtime.dumps (action_object p.action)
    pub session : p.session ≡ session_of w.runtime u.session_key id row.expires_at

  abbrev pub IsLinked : ChatSession w P → Type 0
  IsLinked s = (id : String) (p : Pending) → lookup id s.pending ≡ some p → Link id p s.approvals

  -- A row stays a link where other rows change.
  Link-insert :
      (id other : String) (p : Pending) (q : ApprovalRequest) (t : Table)
      → (other == id) ≡ false
      → Link id p t
      → Link id p (insert other q t)
  Link-insert id other p q t differs l = record {
    row = l.row;
    found = ground (arith, l.found, differs, lookup-insert other id q t);
    named = l.named;
    waits = l.waits;
    action_json = l.action_json;
    session = l.session;
  }

  create-IsLinked :
      (s : ChatSession w P) (a : Action) (conversation destination fresh_id : String) (now : ℕ)
      (q : ApprovalRequest) (session : Text) (table : Table)
      → create w.runtime u.session_key s.approvals a u.identity destination 300 fresh_id now
        ≡ ok ((q, session), table)
      → IsLinked s
      → IsLinked (record s {
        approvals = table;
        pending =
            insert q.id
              (record { action = a; conversation_id = conversation; session = session })
              s.pending;
      })
  create-IsLinked s a conversation destination fresh_id now q session table made linked id p found =
      let entry : Pending = record {
        action = a;
        conversation_id = conversation;
        session = session;
      } in
      let c =
        create-Created w.runtime u.session_key s.approvals table a u.identity destination 300
          fresh_id now q session made in
      elim (Bool-cases (fresh_id == id)) [
        | inl same ↦
            let is_entry : entry ≡ p =
              ground (arith, c.named, found, same, lookup-insert q.id id entry s.pending) in
            let is_id : fresh_id ≡ id = (eq_iff fresh_id id).0 same in
            record {
              row = q;
              found = ground (arith, c.stored, same, lookup-insert fresh_id id q s.approvals);
              named = c.named ∙ is_id;
              waits = c.pending;
              action_json =
                  c.action_json
                  ∙ ap (λ (e : Pending). w.runtime.dumps (action_object e.action)) is_entry;
              session = cc (is_entry, c.holder, c.expiry, is_id);
            }
        | inr differs ↦
            let old : lookup id s.pending ≡ some p =
              ground (arith, c.named, found, differs, lookup-insert q.id id entry s.pending) in
            rw c.stored (Link-insert id fresh_id p q s.approvals differs (linked id p old))
      ]

  handle-IsLinked :
      (max_steps : ℕ) (s : ChatSession w P) (conversation : String) (text : Text) (d : Draws)
      → IsLinked s
      → IsLinked (handle w u max_steps s conversation text d).1
  handle-IsLinked max_steps s conversation text d linked =
      handle-keeps w u IsLinked rules max_steps s conversation text linked
    where
      rules : Keeps w u IsLinked d
      rules = record {
        hears = λ s' c t i. i;
        plans = λ s' p i. i;
        executes = λ s' proposed fresh t i. i;
        asks = λ s' proposed fresh conversation' q session table made i.
            create-IsLinked s' (own_action proposed fresh) conversation'
              (destination w (own_action proposed fresh)) d.request_id d.now q session table made i;
      }

  decide-IsLinked :
      (s : ChatSession w P) (other : String) (session : Text) (v : String) (now issued : ℕ)
      (t : Times)
      → IsLinked s
      → IsLinked (decide w u s other session v now issued t).1
  decide-IsLinked s other session v now issued t linked id p found =
      elim (decide-pending w u s other session v now issued t) [
        | inl same ↦ rw same (linked id p (ap (λ s'. lookup id s'.pending) (sym same) ∙ found))
        | inr (q, table, ruled, pending, approvals) ↦
            let r =
              decide-Decided w.runtime u.session_key s.approvals table other session v now q
                ruled in
            let row : ApprovalRequest = record r.request { status = v } in
            let differs : (other == id) ≡ false =
              ground (arith, pending, found, lookup-erase other id s.pending) in
            let old : lookup id s.pending ≡ some p =
              ground (arith, pending, found, differs, lookup-erase other id s.pending) in
            rw (approvals ∙ r.after)
              (Link-insert id other p row s.approvals differs (linked id p old))
      ]

  -- Over any messages and decisions, every pending request stays linked to a waiting row of the
  -- service, which holds its very action and its session.
  pub serve_all-IsLinked :
      (max_steps : ℕ) (calls : List Call) (s : ChatSession w P)
      → IsLinked s
      → IsLinked (serve_all w u max_steps s calls)
  serve_all-IsLinked max_steps [] s linked = linked
  serve_all-IsLinked max_steps (Call.message conversation text d ∷ cs) s linked =
      serve_all-IsLinked max_steps cs (handle w u max_steps s conversation text d).1
        (handle-IsLinked max_steps s conversation text d linked)
  serve_all-IsLinked max_steps (Call.verdict other session v now issued t ∷ cs) s linked =
      serve_all-IsLinked max_steps cs (decide w u s other session v now issued t).1
        (decide-IsLinked s other session v now issued t linked)
