-- ===== src/WebChat/Once.antt =====
-- How often a request is decided, over messages and decisions in any order (web_chat.py).
use openmuse.Common.{
  ℕ, String, Text, ◌≡◌, ◌≢◌, inl, inr, refl, ap, true, false, none, List, [], ◌∷◌, arith, Outcome,
  ok, err, value_error, ◌==◌, eq_iff, eq_refl, lookup, insert, contains, lookup-erase,
  lookup-insert,
}
use openmuse.Models.{Action}
use openmuse.ApprovalService.{ApprovalRequest, Table, create}
use openmuse.ApprovalService.Create.{create-Created}
use openmuse.ApprovalService.Decide.{decide-Decided}
use openmuse.Core.{Times}
use openmuse.WebChat.{
  WebHost, ChatEvent, Pending, ChatSession, Setup, Draws, own_action, destination, handle, decide,
}
use openmuse.WebChat.Rounds.{Keeps, handle-keeps}
use openmuse.WebChat.Decides.{decide-pending}

-- A call of the session's two operations, with what it draws.
pub data Call : Type 0 where
  message : String → Text → Draws → Call
  verdict : String → Text → String → ℕ → ℕ → Times → Call

module _ (w : WebHost) {P : Type 0} (u : Setup w P) (max_steps : ℕ) where
  abbrev pub serve : ChatSession w P → Call → Outcome (List ChatEvent) × ChatSession w P
  serve s (Call.message conversation text d) = handle w u max_steps s conversation text d
  serve s (Call.verdict id session v now issued t) = decide w u s id session v now issued t

  abbrev pub serve_all : ChatSession w P → List Call → ChatSession w P
  serve_all s [] = s
  serve_all s (c ∷ cs) = serve_all (serve s c).1 cs

  -- The request is in the service's table, and pending no more.
  abbrev pub IsSpent : String → ChatSession w P → Type 0
  IsSpent id s = (contains id s.approvals ≡ true) × (lookup id s.pending ≡ none)

  create-IsSpent :
      (id : String) (s : ChatSession w P) (a : Action) (destination fresh_id : String) (now : ℕ)
      (q : ApprovalRequest) (session : Text) (table : Table) (entry : Pending)
      → create w.runtime u.session_key s.approvals a u.identity destination 300 fresh_id now
        ≡ ok ((q, session), table)
      → IsSpent id s
      → IsSpent id (record s { approvals = table; pending = insert q.id entry s.pending })
  create-IsSpent id s a destination fresh_id now q session table entry made (known, gone) =
      let c =
        create-Created w.runtime u.session_key s.approvals table a u.identity destination 300
          fresh_id now q session made in
      let differs : (fresh_id == id) ≡ false = ground (arith, c.free, known, eq_iff fresh_id id) in
      (
        ground (arith, c.stored, known, differs, lookup-insert fresh_id id q s.approvals),
        ground (arith, c.named, gone, differs, lookup-insert q.id id entry s.pending),
      )

  handle-IsSpent :
      (id : String) (s : ChatSession w P) (conversation : String) (text : Text) (d : Draws)
      → IsSpent id s
      → IsSpent id (handle w u max_steps s conversation text d).1
  handle-IsSpent id s conversation text d spent =
      handle-keeps w u (IsSpent id) rules max_steps s conversation text spent
    where
      rules : Keeps w u (IsSpent id) d
      rules = record {
        hears = λ s' c t i. i;
        plans = λ s' p i. i;
        executes = λ s' proposed fresh t i. i;
        asks = λ s' proposed fresh conversation' q session table made i.
            create-IsSpent id s' (own_action proposed fresh)
              (destination w (own_action proposed fresh)) d.request_id d.now q session table
              (record {
                action = own_action proposed fresh;
                conversation_id = conversation';
                session = session;
              })
              made i;
      }

  decide-IsSpent :
      (id : String) (s : ChatSession w P) (other : String) (session : Text) (v : String)
      (now issued : ℕ) (t : Times)
      → IsSpent id s
      → IsSpent id (decide w u s other session v now issued t).1
  decide-IsSpent id s other session v now issued t spent =
      elim (decide-pending w u s other session v now issued t) [
        | inl same ↦ rw same spent
        | inr (q, table, ruled, pending, approvals) ↦
            let r =
              decide-Decided w.runtime u.session_key s.approvals table other session v now q
                ruled in
            let row : ApprovalRequest = record r.request { status = v } in
            (
              ground (arith, approvals, r.after, spent.0, lookup-insert other id row s.approvals),
              ground (arith, pending, spent.1, lookup-erase other id s.pending),
            )
      ]

  serve_all-IsSpent :
      (id : String) (calls : List Call) (s : ChatSession w P)
      → IsSpent id s
      → IsSpent id (serve_all s calls)
  serve_all-IsSpent id [] s spent = spent
  serve_all-IsSpent id (Call.message conversation text d ∷ cs) s spent =
      serve_all-IsSpent id cs _ (handle-IsSpent id s conversation text d spent)
  serve_all-IsSpent id (Call.verdict other session v now issued t ∷ cs) s spent =
      serve_all-IsSpent id cs _ (decide-IsSpent id s other session v now issued t spent)

  decided-IsSpent :
      (s : ChatSession w P) (id : String) (session : Text) (v : String) (now issued : ℕ) (t : Times)
      → lookup id (decide w u s id session v now issued t).1.pending ≢ lookup id s.pending
      → IsSpent id (decide w u s id session v now issued t).1
  decided-IsSpent s id session v now issued t changed =
      elim (decide-pending w u s id session v now issued t) [
        | inl same ↦ absurd (changed (ap (λ s'. lookup id s'.pending) same))
        | inr (q, table, ruled, pending, approvals) ↦
            let r =
              decide-Decided w.runtime u.session_key s.approvals table id session v now q ruled in
            let row : ApprovalRequest = record r.request { status = v } in
            (
              ground (arith, approvals, r.after, eq_refl id, lookup-insert id id row s.approvals),
              ground (arith, pending, eq_refl id, lookup-erase id id s.pending),
            )
      ]

  refused_spent :
      (s : ChatSession w P) (id : String) (session : Text) (v : String) (now issued : ℕ) (t : Times)
      → IsSpent id s
      → decide w u s id session v now issued t ≡ (err (value_error "unknown approval"), s)
  unfolding decide
  refused_spent s id session v now issued t spent = rw (spent.1, decide) refl

  -- A decision that took a request off the pending ones, whether its action then ran, was denied or
  -- failed, is the last one on it: after any further messages and decisions, a decision on the same
  -- request is refused and changes nothing.
  pub decide-last :
      (s : ChatSession w P) (id : String) (session session' : Text) (v v' : String)
      (now now' issued issued' : ℕ) (t t' : Times) (calls : List Call)
      → lookup id (decide w u s id session v now issued t).1.pending ≢ lookup id s.pending
      → let later = serve_all (decide w u s id session v now issued t).1 calls in
        decide w u later id session' v' now' issued' t'
        ≡ (err (value_error "unknown approval"), later)
  decide-last s id session session' v v' now now' issued issued' t t' calls changed =
      refused_spent _ id session' v' now' issued' t'
        (serve_all-IsSpent id calls _ (decided-IsSpent s id session v now issued t changed))
