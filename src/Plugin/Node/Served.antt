-- ===== src/Plugin/Node/Served.antt =====
-- What the queries of read_only (sql_db_plugin/sql_db_plugin.cpp) answer from the tables that a running
-- node writes.
use eos_sql_db_plugin.Base.{◌∷◌, ℕ, String, ◌≡◌, ap, ◌∙◌, Bool, true, some}
use eos_sql_db_plugin.Base.Int.{ℤ}
use eos_sql_db_plugin.Effect.{ok}
use eos_sql_db_plugin.Sql.{Driver, Pools, driver, of_sql_db, of_db_blocks}
use eos_sql_db_plugin.Chain.{ChainLib}
use eos_sql_db_plugin.Database.{SqlDatabase}
use eos_sql_db_plugin.Consumer.Channel.{asleep, idle}
use eos_sql_db_plugin.Plugin.{Boost, VariablesMap, SqlDbPluginImpl, plugin_initialize}
use eos_sql_db_plugin.Plugin.Start.{configured}
use eos_sql_db_plugin.Plugin.Node.{Node, started, Run}
use eos_sql_db_plugin.Plugin.Node.Accepted.{accepted}
use eos_sql_db_plugin.Plugin.Node.Tables.{plugin_initialize-tables}
use eos_sql_db_plugin.Contents.{Contents, Server}
use eos_sql_db_plugin.Contents.Laws.{ServerLaws}
use eos_sql_db_plugin.Contents.Traces.{after_traces}
use eos_sql_db_plugin.Contents.Queries.{QueryLaws}
use eos_sql_db_plugin.Api.Chainbase.{Chainbase}
use eos_sql_db_plugin.Api.Resources.{RowReader}
use eos_sql_db_plugin.Api.Proposals.{MsigReader}
use eos_sql_db_plugin.Api.Params.{JsonLib}
use eos_sql_db_plugin.Http.{HttpPlugin, HttpLaws, call_handler, body_or_object}
use eos_sql_db_plugin.Http.Members.{JsonLaws}
use eos_sql_db_plugin.Http.Requests.{Request, reply, queried, call_of, GivenBy}
use eos_sql_db_plugin.Http.Answered.{request_answered}
use eos_sql_db_plugin.Http.Stored.{IsAskable, answer_from, queried-answer_from}

module _ (ps : Pools) (c : ChainLib) (boost : Boost) (options : VariablesMap) (sv : Server)
    (laws : ServerLaws (driver ps of_db_blocks) sv) (uninitialised : ℤ) (chain_plug : Bool)
    (s s' : ps.Db) (impl : SqlDbPluginImpl) (sql_db : SqlDatabase) (queue_size start : ℕ)
    (n : Node ps.Db)
    (returned : plugin_initialize ps c boost options uninitialised chain_plug s ≡ (ok impl, s'))
    (handled : impl.handler ≡ some (sql_db, queue_size))
    (connected : impl.applied_transaction_connection ≡ some start)
    (run : Run (driver ps of_db_blocks) c sql_db queue_size start (started s') n)
    (sleeps : n.consumer.traces.worker ≡ asleep) (no_call : n.consumer.traces.producer ≡ idle)
    (mentions : String → String → Bool)
    (queries : QueryLaws (driver ps of_sql_db) laws.view mentions) (db : Chainbase) where
  -- What the tables hold by plugin_initialize-tables.
  abbrev pub tables_at_rest : Contents
  tables_at_rest =
      after_traces c sv (configured ps c boost options).m_action_filter_on
        (accepted options.block_start n.signals) (laws.view s')

  at_rest : laws.view n.db ≡ tables_at_rest
  at_rest =
      plugin_initialize-tables ps c boost options sv laws uninitialised chain_plug s s' impl sql_db
        queue_size start n returned handled connected run sleeps no_call

  module _ (rd : RowReader db) (ms : MsigReader db rd) (jl : JsonLib) (json_laws : JsonLaws jl)
      (status : ℕ) (h : HttpPlugin) (http_laws : HttpLaws h) where
    open http_laws use {sent, error_of}

    abbrev d : Driver
    d = driver ps of_sql_db

    -- After a plugin_initialize that returns with a consumer and a connection to the signal, on a
    -- server that answers the statements and the queries as MySQL documents them and whose sessions can
    -- be leased and reconnected, in every run of the node, whenever the worker of the traces sleeps and
    -- no call of `queue` is under way: with the HTTP plugin and the conversions of fc as they are
    -- documented, a request to one of the eight paths whose body is an object that gives the
    -- parameters, and for the pending proposals an account name without a quote and a backslash, gets
    -- exactly one response: 200 with the JSON of what the query answers from the chain's database and
    -- from the tables assets and proposal as the accepted transactions have left them, or the response
    -- for the exception that it throws; a page with a negative number has no tokens.
    pub request-tables :
        (q : Request) (body : String) (v : jl.Json) (t : h.Conn)
        → jl.from_string (body_or_object body) ≡ ok v
        → json_laws.is_object v ≡ true
        → GivenBy d db rd ms jl status json_laws v q
        → IsAskable q
        → (let k = call_of d db rd ms jl status q in
            (u : ps.Db) × (o : h.Conn) × (call_handler h "sql_db" k body (n.db, t)
              ≡ (ok tt, (u, o)))
            × (sent o
                ≡ reply jl.to_string
                    (λ e. error_of e "sql_db" k.call_name (body_or_object body))
                    (answer_from db rd ms jl status mentions tables_at_rest q)
                  ∷ sent t))
    request-tables q body v t e o g ask =
        let k = call_of d db rd ms jl status q in
        let (w, p, r) =
          request_answered d db rd ms jl json_laws status h http_laws q body v n.db t e o g in
        (
          (queried d db rd ms jl status q n.db).1,
          w,
          p,
          r
              ∙ ap
                  (λ x.
                    reply jl.to_string
                      (λ x'. error_of x' "sql_db" k.call_name (body_or_object body)) x
                    ∷ sent t)
                  (queried-answer_from db rd ms jl status mentions d laws.view queries q n.db ask
                    ∙ ap (λ c'. answer_from db rd ms jl status mentions c' q) at_rest),
        )
