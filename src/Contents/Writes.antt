-- ===== src/Contents/Writes.antt =====
-- Calls on the reference server by the writes that they make.
use eos_sql_db_plugin.Base.{
  String, ◌≡◌, refl, Bool, true, false, Option, none, some, List, [], ◌∷◌, ◌++◌, map, if◌then◌else◌,
}
use eos_sql_db_plugin.Effect.{
  Exception, ok, Effect, pure, try_catch, ◌>>=◌, ◌>>◌, for_each, handled, continued,
}
use eos_sql_db_plugin.Sql.{Driver, Statement, attempt}
use eos_sql_db_plugin.Contents.{Contents, Write, write, Server, written}
use eos_sql_db_plugin.Contents.Reference.{reference, command_of}
use eos_sql_db_plugin.Contents.Actions.{from_verdict, until_refused}

-- Each statement is known to the server as the write at its place.
abbrev pub Matches : List Statement → List Write → Type 0
Matches [] [] = Unit {0}
Matches (st ∷ sts) (w ∷ ws) = (command_of st ≡ some (write w)) × Matches sts ws
Matches [] (w ∷ ws) = ⊥
Matches (st ∷ sts) [] = ⊥

pub Matches-map :
    (f : String → Statement) (g : String → Write)
    → ((key : String) → command_of (f key) ≡ some (write (g key)))
    → (keys : List String) → Matches (map f keys) (map g keys)
Matches-map f g h [] = tt
Matches-map f g h (key ∷ keys) = (h key, Matches-map f g h keys)

pub Matches-append :
    (sts sts' : List Statement) (ws ws' : List Write)
    → Matches sts ws
    → Matches sts' ws'
    → Matches (sts ++ sts') (ws ++ ws')
Matches-append [] sts' [] ws' m k = k
Matches-append (st ∷ sts) sts' (w ∷ ws) ws' (h, m) k = (h, Matches-append sts sts' ws ws' m k)
Matches-append [] sts' (w ∷ ws) ws' m k = elim m [ ]
Matches-append (st ∷ sts) sts' [] ws' m k = elim m [ ]

module _ (sv : Server) where
  abbrev ref : Driver
  ref = reference sv

  abbrev pub caught : Effect Contents (Unit {0}) → Effect Contents (Unit {0})
  caught m = try_catch m (λ _. pure tt)

  abbrev pub execute_each : List Statement → Effect Contents (Unit {0})
  execute_each sts = for_each sts (λ st. ref.execute st >> pure tt)

  -- A call that, with what it throws caught, makes the writes up to the first that is refused.
  unfoldable pub Writes : List Write → Effect Contents (Unit {0}) → Type 0
  Writes ws m = (s : Contents) → caught m s ≡ (ok tt, until_refused sv ws s)

  pub Writes-at :
      (ws : List Write) (m : Effect Contents (Unit {0}))
      → Writes ws m
      → (s : Contents) → handled (m s) (λ _. pure tt) ≡ (ok tt, until_refused sv ws s)
  unfolding Writes try_catch
  Writes-at ws m h = h

  verdict_lem :
      (o : Option Exception) (w : Write) (m : Effect Contents (Unit {0})) (ws : List Write)
      (s : Contents)
      → Writes ws m
      → handled (continued (continued (written sv o w s) (λ _. pure tt)) (λ _. m)) (λ _. pure tt)
        ≡ (ok tt, from_verdict sv o w (until_refused sv ws) s)
  unfolding Writes try_catch pure
  verdict_lem none w m ws s h = h _
  verdict_lem (some e) w m ws s h = refl

  pub execute_each-Writes :
      (sts : List Statement) (ws : List Write) → Matches sts ws → Writes ws (execute_each sts)
  unfolding Writes for_each ◌>>=◌
  execute_each-Writes [] [] m s = refl
  execute_each-Writes (st ∷ sts) (w ∷ ws) (h, m) s = rw h (
      verdict_lem (sv.refused w s) w (execute_each sts) ws s
        (unfold Writes in execute_each-Writes sts ws m))
  execute_each-Writes [] (w ∷ ws) m s = elim m [ ]
  execute_each-Writes (st ∷ sts) [] m s = elim m [ ]

  attempt_verdict :
      (o : Option Exception) (w : Write) (s : Contents)
      → handled (continued (written sv o w s) (λ _. pure tt)) (λ _. pure tt)
        ≡ (ok tt, from_verdict sv o w (λ t. t) s)
  unfolding pure
  attempt_verdict none w s = refl
  attempt_verdict (some e) w s = refl

  pub attempt_lem :
      (st : Statement) (w : Write) (s : Contents)
      → command_of st ≡ some (write w)
      → attempt ref st s ≡ (ok tt, until_refused sv (w ∷ []) s)
  unfolding attempt ◌>>=◌
  attempt_lem st w s h = rw h (attempt_verdict (sv.refused w s) w s)

  pub attempt-Writes :
      (st : Statement) (w : Write)
      → command_of st ≡ some (write w)
      → (s : Contents)
      → handled (attempt ref st s) (λ _. pure tt) ≡ (ok tt, until_refused sv (w ∷ []) s)
  attempt-Writes st w h s = rw (attempt_lem st w s h) refl

  pub nothing-Writes : Writes [] (pure tt)
  unfolding Writes pure try_catch
  nothing-Writes s = refl

  pub Writes-if :
      (b : Bool) (ws ws' : List Write) (m m' : Effect Contents (Unit {0}))
      → Writes ws m
      → Writes ws' m'
      → Writes (if b then ws else ws') (if b then m else m')
  Writes-if true ws ws' m m' h k = h
  Writes-if false ws ws' m m' h k = k
