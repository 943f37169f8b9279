-- ===== src/Schema/Queries.antt =====
-- What a statement reads and where its placeholders stand: the table, the columns that it names, and
-- for each placeholder its column, the SQL function around it and its name.
use Prim.Native.Char.{Char, code}
use eos_sql_db_plugin.Base.{
  String, Bool, true, ◌||◌, ◌&&◌, Option, none, some, List, [], ◌∷◌, ◌==◌, leb, str_eq, is_empty,
  if◌then◌else◌,
}

pub data Lexeme : Type 0 where
  word : String → Lexeme
  colon comma opening closing blank other : Lexeme

abbrev is_letter : Char → Bool
is_letter c =
    leb 97 (code c) && leb (code c) 122
    || leb 65 (code c) && leb (code c) 90
    || leb 48 (code c) && leb (code c) 57
    || code c == 95

abbrev sign : Char → Lexeme
sign c =
    if code c == 58
    then colon
    else if code c == 44
    then comma
    else if code c == 40
    then opening
    else if code c == 41
    then closing
    else if code c == 32
    then blank
    else other

-- The token in front of the others, a letter joining the word that it begins.
abbrev joined : Char → List Lexeme → List Lexeme
joined c (word w ∷ ts) = word (String.◌∷◌ c w) ∷ ts
joined c ts = word (String.◌∷◌ c String.[]) ∷ ts

unfoldable pub tokens : String → List Lexeme
tokens String.[] = []
tokens (String.◌∷◌ c s) =
    let rest = tokens s in if is_letter c then joined c rest else sign c ∷ rest

unfoldable pub without_blanks : List Lexeme → List Lexeme
without_blanks [] = []
without_blanks (blank ∷ ts) = without_blanks ts
without_blanks (t ∷ ts) = t ∷ without_blanks ts

pub record Slot : Type 0 where
  pub column : String
  pub function : String
  pub name : String

pub record Shape : Type 0 where
  pub table : String
  pub columns : List String
  pub slots : List Slot
  -- Of an INSERT, whether it has a value for each column that it lists.
  pub filled : Bool

abbrev first : List String → String
first [] = ""
first (x ∷ xs) = x

abbrev others : List String → List String
others [] = []
others (x ∷ xs) = xs

-- The words in front of the first token that is neither a word nor a comma, with the tokens behind
-- that one.
unfoldable listed : List Lexeme → List String × List Lexeme
listed [] = ([], [])
listed (word w ∷ ts) = let rest = listed ts in (w ∷ rest.0, rest.1)
listed (comma ∷ ts) = listed ts
listed (t ∷ ts) = ([], ts)

-- `column = :name`, after the word `last`.
unfoldable assigned : (last : String) → List Lexeme → List Slot
assigned last [] = []
assigned last (word w ∷ ts) = assigned w ts
assigned last (colon ∷ word w ∷ ts) =
    record { column = last; function = ""; name = w } ∷ assigned last ts
assigned last (t ∷ ts) = assigned last ts

-- The list behind VALUES, by the columns still to come; words behind its end assign.
unfoldable valued : (columns : List String) → (function : String) → List Lexeme → List Slot
unfolding assigned
valued columns function [] = []
valued columns function (comma ∷ ts) = valued (others columns) "" ts
valued columns function (colon ∷ word w ∷ ts) =
    record { column = first columns; function = function; name = w } ∷ valued columns function ts
valued columns function (word w ∷ ts) = valued columns w ts
valued columns function (closing ∷ word w ∷ ts) = assigned w ts
valued columns function (t ∷ ts) = valued columns function ts

abbrev from_table : List Lexeme → Option Shape
from_table (word t ∷ ts) =
    some (record { table = t; columns = []; slots = assigned t ts; filled = true })
from_table _ = none

abbrev with_column : String → Option Shape → Option Shape
with_column w none = none
with_column w (some s) = some (record s { columns = w ∷ s.columns })

-- The columns of a SELECT up to FROM.
unfoldable selecting : List Lexeme → Option Shape
unfolding assigned
selecting [] = none
selecting (word w ∷ ts) =
    let rest = selecting ts in
    if str_eq w "FROM" || str_eq w "from" then from_table ts else with_column w rest
selecting (t ∷ ts) = selecting ts

-- The columns that the list behind VALUES leaves without a value.
unfoldable left_over : List String → List Lexeme → List String
left_over columns [] = others columns
left_over columns (comma ∷ ts) = left_over (others columns) ts
left_over columns (closing ∷ word w ∷ ts) = others columns
left_over columns (t ∷ ts) = left_over columns ts

-- Behind `VALUES (`.
abbrev values_in : List Lexeme → List Lexeme
values_in (word values ∷ opening ∷ ts) = ts
values_in _ = []

abbrev inserting : List Lexeme → Option Shape
inserting (word into ∷ word t ∷ opening ∷ ts) =
    let (columns, rest) = listed ts in
    some (record {
      table = t;
      columns = columns;
      slots = valued columns "" (values_in rest);
      filled = is_empty (left_over columns (values_in rest));
    })
inserting _ = none

abbrev deleting : List Lexeme → Option Shape
deleting (word from ∷ ts) = from_table ts
deleting _ = none

abbrev statement : List Lexeme → Option Shape
statement (word w ∷ ts) =
    if str_eq w "SELECT" || str_eq w "select"
    then selecting ts
    else if str_eq w "INSERT" || str_eq w "REPLACE"
    then inserting ts
    else if str_eq w "DELETE"
    then deleting ts
    else if str_eq w "UPDATE"
    then from_table ts
    else none
statement _ = none

unfoldable pub shape_of : String → Option Shape
unfolding tokens without_blanks listed assigned valued left_over selecting
shape_of query = statement (without_blanks (tokens query))
