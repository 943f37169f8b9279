-- ===== src/Http/Routes.antt =====
-- Where the paths that plugin_startup of sql_db_api_plugin.cpp registers lead to, and when it can
-- register them.
use mathlib.Core.Bool.{false≢true}
use eos_sql_db_plugin.Base.{
  ℕ, String, ◌≡◌, refl, sym, ap, ◌∙◌, ◌≢◌, ◌↔◌, inl, inr, Bool, true, false, not, ◌&&◌, Option,
  none, some, some-injective, List, [], ◌∷◌, ◌++◌, Bool-cases, map, contains, str_eq, eq_iff, arith,
  if◌then◌else◌,
}
use eos_sql_db_plugin.Base.Int.{ℤ}
use eos_sql_db_plugin.Effect.{ok}
use eos_sql_db_plugin.Sql.{Driver, Pools, driver, of_sql_db}
use eos_sql_db_plugin.Chain.{ChainLib}
use eos_sql_db_plugin.Plugin.{
  Boost, VariablesMap, SqlDbPluginImpl, plugin_initialize, ReadOnly, get_read_only_api,
}
use eos_sql_db_plugin.Plugin.Start.{plugin_initialize-returned}
use eos_sql_db_plugin.Api.Chainbase.{Chainbase}
use eos_sql_db_plugin.Api.Resources.{RowReader}
use eos_sql_db_plugin.Api.Proposals.{MsigReader}
use eos_sql_db_plugin.Api.Params.{JsonLib}
use eos_sql_db_plugin.Http.{HttpPlugin, Call, call_handler}
use eos_sql_db_plugin.Http.Calls.{Handler, path_of, entry_of, calls, handlers_of, plugin_startup}

-- The handler of a path, as the first entry that has it.
unfoldable pub handler_at :
    {S : Type 0} → (path : String) → List (String × Handler S) → Option (Handler S)
handler_at path [] = none
handler_at path ((p, f) ∷ table) = if str_eq p path then some f else handler_at path table

-- No text is on the list twice.
abbrev all_distinct : List String → Bool
all_distinct [] = true
all_distinct (x ∷ xs) = not (contains x xs) && all_distinct xs

none≢some : {A : Type 0} {a : A} → none ≢ some a
none≢some e = cc

both : (a b : Bool) → (not a && b) ≡ true → (a ≡ false) × (b ≡ true)
both true b h = cc
both false b h = (refl, h)

module _ {S : Type 0} (h : HttpPlugin) (api_name : String) where
  abbrev pub path : Call S → String
  path k = path_of api_name k.call_name

  contains-path :
      (k : Call S) (before after : List (Call S))
      → contains (path k) (map path (before ++ k ∷ after)) ≡ true
  contains-path k [] after = rw ((eq_iff (path k) (path k)).1 refl) refl
  contains-path k (k' ∷ before) after = ground (arith, contains-path k before after)

  -- A path that comes before another one on a list without doubles is not that one.
  earlier :
      (k k' : Call S) (before after : List (Call S))
      → contains (path k') (map path (before ++ k ∷ after)) ≡ false
      → str_eq (path k') (path k) ≡ false
  earlier k k' before after c = elim (Bool-cases (str_eq (path k') (path k))) [
    | inr n ↦ n
    | inl e ↦
        let q = (eq_iff (path k') (path k)).0 e in
        absurd (
          false≢true (
            sym c
            ∙ ap (λ (p : String). contains p (map path (before ++ k ∷ after))) q
            ∙ contains-path k before after))
  ]

  found :
      (k : Call S) (before after : List (Call S))
      → all_distinct (map path (before ++ k ∷ after)) ≡ true
      → handler_at (path k) (map (entry_of h api_name) (before ++ k ∷ after))
        ≡ some (call_handler h api_name k)
  unfolding handler_at
  found k [] after distinct = rw ((eq_iff (path k) (path k)).1 refl) refl
  found k (k' ∷ before) after distinct =
      let (c, rest) =
        both (contains (path k') (map path (before ++ k ∷ after)))
          (all_distinct (map path (before ++ k ∷ after))) distinct in
      rw (earlier k k' before after c) (found k before after rest)

  not_found :
      (p : String) (ks : List (Call S))
      → contains p (map path ks) ≡ false
      → handler_at p (map (entry_of h api_name) ks) ≡ none
  unfolding handler_at
  not_found p [] c = refl
  not_found p (k ∷ ks) c = ground (arith, not_found p ks)

module _ (d : Driver) (db : Chainbase) (rd : RowReader db) (ms : MsigReader db rd) (jl : JsonLib)
    (uninitialised : ℕ) (h : HttpPlugin) where
  abbrev entries : List (String × Handler (d.Db × h.Conn))
  entries = map (entry_of h "sql_db") (calls d db rd ms jl uninitialised)

  registered :
      (ro_api : Option ReadOnly) (table : List (String × Handler (d.Db × h.Conn)))
      → handlers_of d db rd ms jl uninitialised h ro_api ≡ some table
      → table ≡ entries
  registered none table e = cc
  registered (some ro_api) table e = sym (some-injective _ _ e)

  abbrev pub paths : List String
  paths = map (path h "sql_db") (calls d db rd ms jl uninitialised)

  -- Where plugin_startup registers its paths, the path of every call on its list leads to the handler
  -- of that call, so that none hides another, and any other path to none.
  pub plugin_startup-routes :
      (my : SqlDbPluginImpl) (table : List (String × Handler (d.Db × h.Conn)))
      → plugin_startup d db rd ms jl uninitialised h my ≡ some table
      → ((k : Call d.Db) (before after : List (Call d.Db))
          → calls d db rd ms jl uninitialised ≡ before ++ k ∷ after
          → handler_at (path_of "sql_db" k.call_name) table ≡ some (call_handler h "sql_db" k))
        × ((p : String) → contains p paths ≡ false → handler_at p table ≡ none)
  unfolding plugin_startup
  plugin_startup-routes my table e =
      let q = registered (get_read_only_api my) table e in
      (
        λ k before after split.
            let distinct =
              ap (λ (ks : List (Call d.Db)). all_distinct (map (path h "sql_db") ks)) (sym split) in
            ap (handler_at (path h "sql_db" k))
              (q ∙ ap (λ (ks : List (Call d.Db)). map (entry_of h "sql_db") ks) split)
            ∙ found h "sql_db" k before after distinct,
        λ p c. ap (handler_at p) q ∙ not_found h "sql_db" p (calls d db rd ms jl uninitialised) c,
      )

module _ (ps : Pools) (db : Chainbase) (rd : RowReader db) (ms : MsigReader db rd) (jl : JsonLib)
    (uninitialised : ℕ) (h : HttpPlugin) where
  -- Where plugin_initialize has returned, plugin_startup of sql_db_api_plugin uses a null pointer
  -- exactly if the URI is empty.
  pub plugin_startup_null :
      (my : SqlDbPluginImpl) (c : ChainLib) (boost : Boost) (options : VariablesMap) (started : ℤ)
      (chain_plug : Bool) (s s' : ps.Db)
      → plugin_initialize ps c boost options started chain_plug s ≡ (ok my, s')
      → (plugin_startup (driver ps of_sql_db) db rd ms jl uninitialised h my ≡ none)
        ↔ (options.uri ≡ some "")
  unfolding plugin_startup get_read_only_api
  plugin_startup_null my c boost options started chain_plug s s' e =
      elim (plugin_initialize-returned ps c boost options started chain_plug s s' my e) [
        | inl (empty, disabled, same) ↦ (λ n. empty, λ q. rw disabled.0 refl)
        | inr (uri, given, full, enabled) ↦
            let up : plugin_startup (driver ps of_sql_db) db rd ms jl uninitialised h my
                ≡ some (entries (driver ps of_sql_db) db rd ms jl uninitialised h) =
              rw enabled.1 refl in
            (
              λ n. absurd (none≢some (sym n ∙ up)),
              λ q. absurd (full (some-injective _ _ (sym given ∙ q))),
            )
      ]
