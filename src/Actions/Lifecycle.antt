-- ===== src/Actions/Lifecycle.antt =====
-- The rows of the table proposal that the actions propose, cancel and exec of eosio.msig leave behind
-- (parse_actions of sql_db_plugin/db/actions_table.cpp).
use eos_sql_db_plugin.Base.{
  String, ◌≡◌, refl, ap, ◌∙◌, Bool, true, false, ◌&&◌, ◌||◌, Option, none, some, List, [], ◌∷◌,
  str_eq, if◌then◌else◌,
}
use eos_sql_db_plugin.Effect.{
  Result, ok, throws, Effect, pure, lift, try_catch, ◌>>=◌, for_each, continued,
}
use eos_sql_db_plugin.Sql.{Driver, Statement, Reply, attempt}
use eos_sql_db_plugin.Chain.{Action, ChainLib}
use eos_sql_db_plugin.Actions.Statements.{proposal_upsert, proposal_delete}
use eos_sql_db_plugin.Actions.Parse.{record_proposal, erase_proposal, record_action}

-- What an action asks of the table.
pub data Request : Type 0 where
  put : (proposer proposal_name requested : String) → Request
  drop : (proposer proposal_name : String) → Request
  nothing : Request

-- What is requested for one proposal, `none` where there is no row of it, after a request.
abbrev pub answered : (proposer proposal_name : String) → Request → Option String → Option String
answered p n (put p' n' requested) o = if str_eq p' p && str_eq n' n then some requested else o
answered p n (drop p' n') o = if str_eq p' p && str_eq n' n then none else o
answered p n nothing o = o

-- After a list of requests.
abbrev pub answered_all :
    (proposer proposal_name : String) → List Request → Option String → Option String
answered_all p n [] o = o
answered_all p n (q ∷ qs) o = answered_all p n qs (answered p n q o)

-- A server that executes the two statements as MySQL documents them for a table whose unique key is
-- the proposer with the name of the proposal. `accepts` are the texts that fit their columns: an
-- upsert of others is refused and leaves the table alone. Whether a statement throws is left open.
pub record ProposalLaws (d : Driver) : Type 0 where
  pub accepts : (proposer proposal_name requested : String) → Bool
  pub requested_of : d.Db → (proposer proposal_name : String) → Option String
  pub upserts :
      (p n requested : String) (s : d.Db)
      → (r : Result Reply) × (t : d.Db) × (d.execute (proposal_upsert p n requested) s ≡ (r, t))
        × ((p' n' : String)
            → requested_of t p' n' ≡ (
                if accepts p n requested
                then answered p' n' (put p n requested) (requested_of s p' n')
                else requested_of s p' n'))
  pub deletes :
      (p n : String) (s : d.Db)
      → (r : Result Reply) × (t : d.Db) × (d.execute (proposal_delete p n) s ≡ (r, t))
        × ((p' n' : String)
            → requested_of t p' n' ≡ answered p' n' (drop p n) (requested_of s p' n'))

-- What the server accepts.
abbrev Accepts : Type 0
Accepts = (proposer proposal_name requested : String) → Bool

-- The request of an action by its fields, none where one cannot be read or the row is refused.
abbrev put_of : Accepts → (proposer proposal_name requested : Result String) → Request
put_of accepts (ok p) (ok n) (ok r) = if accepts p n r then put p n r else nothing
put_of accepts (ok p) (ok n) (throws e) = nothing
put_of accepts (ok p) (throws e) r = nothing
put_of accepts (throws e) n r = nothing

abbrev drop_of : (proposer proposal_name : Result String) → Request
drop_of (ok p) (ok n) = drop p n
drop_of (ok p) (throws e) = nothing
drop_of (throws e) n = nothing

module _ (c : ChainLib) (accepts : Accepts) where
  open c use {Variant, name_of_field, json_of_field}

  abbrev pub request_of : Action → Variant → Request
  request_of action v =
      if str_eq action.name "propose"
      then put_of accepts (name_of_field v "proposer") (name_of_field v "proposal_name")
          (json_of_field v "requested")
      else if str_eq action.name "cancel" || str_eq action.name "exec"
      then drop_of (name_of_field v "proposer") (name_of_field v "proposal_name")
      else nothing

  abbrev pub requests : List (Action × Variant) → List Request
  requests [] = []
  requests ((action, v) ∷ rows) = request_of action v ∷ requests rows

-- All are actions of eosio.msig.
abbrev pub AllMsig : (c : ChainLib) → List (Action × c.Variant) → Type 0
AllMsig c [] = Unit {0}
AllMsig c ((action, v) ∷ rows) = (action.account ≡ "eosio.msig") × AllMsig c rows

module _ (d : Driver) (laws : ProposalLaws d) where
  open laws use {accepts, requested_of, upserts, deletes}

  -- A call that returns and answers one request.
  Makes : Request → Effect d.Db (Unit {0}) → Type 0
  Makes q m =
      (s : d.Db)
      → (t : d.Db) × (m s ≡ (ok tt, t))
        × ((p n : String) → requested_of t p n ≡ answered p n q (requested_of s p n))

  abbrev caught : Effect d.Db (Unit {0}) → Effect d.Db (Unit {0})
  caught m = try_catch m (λ _. pure tt)

  nothing-Makes : Makes nothing (pure tt)
  unfolding Makes pure
  nothing-Makes s = (s, refl, λ p n. refl)

  caught-answer :
      (st : Statement) (s t : d.Db) (r : Result Reply)
      → d.execute st s ≡ (r, t)
      → caught (attempt d st) s ≡ (ok tt, t)
  unfolding attempt ◌>>=◌
  caught-answer st s t (ok a) e = rw e refl
  caught-answer st s t (throws x) e = rw e refl

  asked :
      (b : Bool) (p n : String) (q : Request) (o : Option String)
      → (if b then answered p n q o else o) ≡ answered p n (if b then q else nothing) o
  asked true p n q o = refl
  asked false p n q o = refl

  put-Makes :
      (p n r : Result String)
      → Makes (put_of accepts p n r) (
          caught (
            lift p >>= λ proposer. lift n >>= λ proposal_name.
            lift r >>= λ requested. attempt d (proposal_upsert proposer proposal_name requested)))
  unfolding Makes ◌>>=◌
  put-Makes (ok p) (ok n) (ok r) s =
      let (q, t, e, k) = upserts p n r s in
      (
        t,
        caught-answer (proposal_upsert p n r) s t q e,
        λ p' n'. k p' n' ∙ asked (accepts p n r) p' n' (put p n r) (requested_of s p' n'),
      )
  put-Makes (ok p) (ok n) (throws e) s = nothing-Makes s
  put-Makes (ok p) (throws e) r s = nothing-Makes s
  put-Makes (throws e) n r s = nothing-Makes s

  drop-Makes :
      (p n : Result String)
      → Makes (drop_of p n) (
          caught (
            lift p >>= λ proposer.
            lift n >>= λ proposal_name. attempt d (proposal_delete proposer proposal_name)))
  unfolding Makes ◌>>=◌
  drop-Makes (ok p) (ok n) s =
      let (q, t, e, k) = deletes p n s in (t, caught-answer (proposal_delete p n) s t q e, k)
  drop-Makes (ok p) (throws e) s = nothing-Makes s
  drop-Makes (throws e) n s = nothing-Makes s

  Makes-if :
      (b : Bool) (q r : Request) (m k : Effect d.Db (Unit {0}))
      → Makes q (caught m)
      → Makes r (caught k)
      → Makes (if b then q else r) (caught (if b then m else k))
  Makes-if true q r m k h i = h
  Makes-if false q r m k h i = i

  module _ (c : ChainLib) (other : str_eq "eosio.msig" c.system_account_name ≡ false) where
    -- A round of the loop below: what record_row does with an action that has been read.
    record_action-Makes :
        (action : Action) (v : c.Variant)
        → action.account ≡ "eosio.msig"
        → Makes (request_of c accepts action v) (caught (record_action d c action v))
    unfolding record_action record_proposal erase_proposal try_catch pure
    record_action-Makes action v msig =
        rw (msig, other)
          (Makes-if (str_eq action.name "propose") _ _ _ _ (put-Makes _ _ _) (
            Makes-if (str_eq action.name "cancel" || str_eq action.name "exec") _ _ _ _
              (drop-Makes _ _) nothing-Makes))

    -- On a server that executes the statements as documented, recording any actions of eosio.msig
    -- one after another, with what is thrown caught as in add, returns, and leaves in the table of
    -- proposals what the requests of the actions make of it in that order: a proposal has the row of
    -- its last propose whose row the server accepts, unless a cancel or an exec of it came after; an
    -- action whose fields cannot be read, one of another name, and a propose whose row is refused
    -- change nothing.
    pub record_action-answered_all :
        (rows : List (Action × c.Variant)) (s : d.Db)
        → AllMsig c rows
        → (t : d.Db) × (for_each rows (λ x. try_catch (record_action d c x.0 x.1) (λ _. pure tt)) s
            ≡ (ok tt, t))
          × ((p n : String)
              → requested_of t p n
                ≡ answered_all p n (requests c accepts rows) (requested_of s p n))
    unfolding for_each Makes ◌>>=◌
    record_action-answered_all [] s h = (s, refl, λ p n. refl)
    record_action-answered_all ((action, v) ∷ rows) s h =
        let (t, e, k) = record_action-Makes action v h.0 s in
        let (u, e', k') = record_action-answered_all rows t h.1 in
        (
          u,
          ap
                (λ r.
                  continued r (λ _.
                    for_each rows (λ x. try_catch (record_action d c x.0 x.1) (λ _. pure tt))))
                e
              ∙ e',
          λ p n. k' p n ∙ ap (answered_all p n (requests c accepts rows)) (k p n),
        )
