-- ===== src/Api/Stored.antt =====
-- get_all_tokens, get_hold_tokens and get_pending_proposals of read_only
-- (sql_db_plugin/sql_db_plugin.cpp) by what the tables assets and proposal hold.
use eos_sql_db_plugin.Base.{ℕ, String, ◌≡◌, refl, ap, ◌∙◌, Bool, true, List}
use eos_sql_db_plugin.Base.Int.{pos}
use eos_sql_db_plugin.Effect.{Result, ok, bind_result}
use eos_sql_db_plugin.Sql.{Driver}
use eos_sql_db_plugin.Contents.{Contents}
use eos_sql_db_plugin.Contents.Queries.{
  asset_rows, asset_page, pending_rows, is_plain, QueryLaws, Lists-with_session,
}
use eos_sql_db_plugin.Api.Chainbase.{Chainbase}
use eos_sql_db_plugin.Api.Resources.{RowReader}
use eos_sql_db_plugin.Api.Tokens.{Token, get_all_tokens, get_hold_tokens}
use eos_sql_db_plugin.Api.Found.{collect}
use eos_sql_db_plugin.Api.Listed.{
  listed_token, held_token, get_all_tokens-eq-collect, get_hold_tokens-eq-collect,
}
use eos_sql_db_plugin.Api.Proposals.{MsigReader, Proposal, msig_serializer, get_pending_proposals}
use eos_sql_db_plugin.Api.Proposals.Answers.{
  all_listed, read_stored, get_pending_proposals-eq-all_listed,
}

module _ (d : Driver) (view : d.Db → Contents) (mentions : String → String → Bool)
    (queries : QueryLaws d view mentions) (db : Chainbase) (s : d.Db) where
  open queries use {lists_assets, pages_assets, lists_proposals, query_pool}

  pub get_all_tokens_view :
      (account : String) (start size : ℕ)
      → (get_all_tokens db d account (pos start) (pos size) s).0
        ≡ ok (collect (listed_token db account) (asset_page start size (view s)))
  get_all_tokens_view account start size =
      let (q, t, e, r) =
        Lists-with_session d view _ (asset_page start size) query_pool (pages_assets start size)
          s in
      ap (λ (x : Result (List Token) × d.Db). x.0)
        (get_all_tokens-eq-collect db d account s t q (pos start) (pos size) refl refl e)
      ∙ ap (λ rows. ok (collect (listed_token db account) rows)) r

  pub get_hold_tokens_view :
      (account : String)
      → (get_hold_tokens db d account s).0
        ≡ ok (collect (held_token db account) (asset_rows (view s)))
  get_hold_tokens_view account =
      let (q, t, e, r) = Lists-with_session d view _ asset_rows query_pool lists_assets s in
      ap (λ (x : Result (List Token) × d.Db). x.0) (get_hold_tokens-eq-collect db d account s t q e)
      ∙ ap (λ rows. ok (collect (held_token db account) rows)) r

  pub get_pending_proposals_view :
      (rd : RowReader db) (ms : MsigReader db rd) (uninitialised : ℕ) (account : String)
      → is_plain account ≡ true
      → (get_pending_proposals db rd ms d uninitialised account s).0
        ≡ bind_result (msig_serializer db rd ms) (λ abis.
          all_listed (read_stored db rd ms abis) (pending_rows mentions account (view s)))
  get_pending_proposals_view rd ms uninitialised account plain =
      let (q, t, e, r) =
        Lists-with_session d view _ (pending_rows mentions account) query_pool
          (lists_proposals account plain) s in
      ap (λ (x : Result (List Proposal) × d.Db). x.0)
        (get_pending_proposals-eq-all_listed db rd ms d uninitialised account s t q e)
      ∙ ap
          (λ rows.
            bind_result (msig_serializer db rd ms)
              (λ abis. all_listed (read_stored db rd ms abis) rows))
          r
