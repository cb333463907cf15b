-- ===== src/Tests/Data.antt =====
-- Test data: the interfaces instantiated by small concrete functions, and a state of the console.
use muser_console.Base.{
  ℕ, ◌+◌, ◌*◌, ◌-◌, ◌/◌, true, false, ◌==◌, ltb, leb, ◌&&◌, Text, codes, text_eq, List, [], ◌∷◌,
  length, Option, none, some, ◌>>=◌, if◌then◌else◌,
}
use muser_console.Float.{Float, Decimal}
use muser_console.Http.{Http}
use muser_console.Config.Types.{Config}
use muser_console.State.Types.{AppState}
use muser_console.History.Json.{Json}

abbrev digits_from : ℕ → Text → Option ℕ
digits_from acc [] = some acc
digits_from acc (c ∷ s) = if leb 48 c && leb c 57 then digits_from (acc * 10 + (c - 48)) s else none

-- whole numbers, those below a million finite
abbrev pub whole : Float
whole = record {
  F64 = ℕ;
  literal = λ (d : Decimal). d.digits;
  of_ℕ = λ n. n;
  neg_zero = 0;
  add = λ a b. a + b;
  mul = λ a b. a * b;
  div = λ a b. a / b;
  gt = λ a b. ltb b a;
  eq = λ a b. a == b;
  is_finite = λ a. ltb a 1_000_000;
  parse = digits_from 0;
}

abbrev sum : List ℕ → ℕ
sum [] = 0
sum (n ∷ ns) = n + sum ns

abbrev pub mean : List ℕ → ℕ
mean ns = sum ns / length ns

-- every byte a character, every text an authority, and neither a hash nor an encoding
abbrev pub plain : Http
plain = record {
  to_str = λ v. some v;
  header_value = λ t. some t;
  authority = λ t. some t;
  sha256 = λ v. v;
  encode = λ v. v;
  decode = λ t. some t;
}

abbrev pub config : Config
config = record {
  listen = record { text = codes "10.0.0.1:8443"; is_loopback = false };
  tls = some (record { cert_pem = []; key_pem = [] });
  access_key = codes "key";
  ui_dir = codes "ui";
  history = record {
    db_path = codes "history.db";
    retention_days = 30;
    enabled = true;
    sample_interval_ms = 1000;
  };
  instances = [];
  agents = [];
}

abbrev pub console : AppState
console = record {
  config = config;
  tickets = (codes "t", record { expiry = 500; instance_name = codes "gx" }) ∷ [];
  sessions = [];
  pairings = [];
  has_history = true;
  agent_states = [];
}

-- a JSON document
mutual
  pub data Tree : Type 0 where
    str : Text → Tree
    num : ℕ → Tree
    arr : Trees → Tree
    obj : Fields → Tree

  pub data Trees : Type 0 where
    nil : Trees
    cons : Tree → Trees → Trees

  pub data Fields : Type 0 where
    end : Fields
    field : Text → Tree → Fields → Fields

abbrev get_field : Fields → Text → Option Tree
get_field end key = none
get_field (field name value rest) key = if text_eq name key then some value else get_field rest key

abbrev trees : Trees → List Tree
trees nil = []
trees (cons t ts) = t ∷ trees ts

abbrev get_tree : Tree → Text → Option Tree
get_tree (obj fields) key = get_field fields key
get_tree (str _) key = none
get_tree (num _) key = none
get_tree (arr _) key = none

abbrev array_of : Tree → Option (List Tree)
array_of (arr ts) = some (trees ts)
array_of (str _) = none
array_of (num _) = none
array_of (obj _) = none

abbrev str_of : Tree → Option Text
str_of (str s) = some s
str_of (num _) = none
str_of (arr _) = none
str_of (obj _) = none

abbrev num_of : Tree → Option ℕ
num_of (num n) = some n
num_of (str _) = none
num_of (arr _) = none
num_of (obj _) = none

-- the rendering of the entries of these tests: the number of bytes sent
abbrev render_tree : Tree → Text
render_tree t = elim (get_tree t (codes "bytes_sent") >>= num_of) [ none ↦ [] | some n ↦ n ∷ [] ]

abbrev pub tree : Json whole
tree = record {
  Value = Tree;
  get = get_tree;
  as_array = array_of;
  as_str = str_of;
  as_f64 = num_of;
  as_u64 = num_of;
  render = render_tree;
}
