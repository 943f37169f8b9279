-- ===== src/Tables/Blocks.antt =====
-- blocks_table (sql_db_plugin/db/blocks_table.cpp).
use eos_sql_db_plugin.Base.{
  ℕ, String, Bool, true, false, Option, none, some, [], ◌∷◌, length, if◌then◌else◌, ◌==◌,
}
use eos_sql_db_plugin.Base.Int.{pos, is_positive, is_zero}
use eos_sql_db_plugin.Effect.{Effect, pure, try_catch, ◌>>=◌, ◌>>◌}
use eos_sql_db_plugin.Chain.{BlockState, ChainLib}
use eos_sql_db_plugin.Sql.{Driver, Statement, text, number, first_number}

abbrev pub blocks_replace : BlockState → (timestamp : ℕ) → Statement
blocks_replace b timestamp = record {
  query =
      "REPLACE INTO blocks(id, block_number, prev_block_id, timestamp, transaction_merkle_root, action_merkle_root,producer, version, confirmed, num_transactions) VALUES (:id, :in, :pb, FROM_UNIXTIME(:ti), :tr, :ar, :pa, :ve, :pe, :nt)";
  uses =
      text b.id
      ∷ number (pos b.block_num)
      ∷ text b.previous
      ∷ number (pos timestamp)
      ∷ text b.transaction_mroot
      ∷ text b.action_mroot
      ∷ text b.producer
      ∷ number (pos b.schedule_version)
      ∷ number (pos b.confirmed)
      ∷ number (pos (length b.trxs))
      ∷ [];
}

abbrev pub blocks_new_producers : String → String → Statement
blocks_new_producers new_producers id = record {
  query = "UPDATE blocks SET new_producers = :np WHERE id = :id";
  uses = text new_producers ∷ text id ∷ [];
}

abbrev pub blocks_irreversible : String → Bool → Statement
blocks_irreversible block_id irreversible = record {
  query = "UPDATE blocks SET irreversible = :irreversible WHERE id = :id";
  uses = number (if irreversible then pos 1 else pos 0) ∷ text block_id ∷ [];
}

abbrev pub blocks_count_reversible : String → Statement
blocks_count_reversible block_id = record {
  query = "select count(*) from blocks where irreversible = 0 and id = :id ";
  uses = text block_id ∷ [];
}

module _ (d : Driver) (c : ChainLib) where
  open d use {Db, execute}

  unfoldable pub add_new_producers : BlockState → Option String → Effect Db (Unit {0})
  add_new_producers b none = pure tt
  add_new_producers b (some new_producers) =
      execute (blocks_new_producers new_producers b.id) >> pure tt

  unfoldable pub add : BlockState → Effect Db (Unit {0})
  add b =
      try_catch
        (execute (blocks_replace b (c.sec_since_epoch b.timestamp))
          >> add_new_producers b b.new_producers)
        (λ _. pure tt)

  -- The second query of `irreversible_set`, made when the update has changed no row.
  unfoldable pub recount : String → Effect Db Bool
  recount block_id = do
    r ← execute (blocks_count_reversible block_id)
    let amount = first_number (pos 0) r.rows
    pure (if is_zero amount then true else is_positive amount)

  -- A throw of the first query leaves `amount` 0, and one of the second does too: it is reached
  -- with 0 and soci writes `amount` only on success.
  unfoldable pub irreversible_set : String → Bool → Effect Db Bool
  irreversible_set block_id irreversible =
      try_catch
        (execute (blocks_irreversible block_id irreversible) >>= λ r.
          if r.affected_rows == 0 then recount block_id else pure true)
        (λ _. pure false)
