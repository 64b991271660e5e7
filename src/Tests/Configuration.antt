-- ===== src/Tests/Configuration.antt =====
-- The configuration code at concrete inputs.
use rfx.Prelude.{◌>>=◌, ℕ, suc, ◌≡◌, refl, true, false, none, some, [], ◌∷◌, ◌++◌, arith, codes}
use rfx.Mconf.{MetadParam, MconfBlock, Mconf, mconf_init, mconf_add}
use rfx.Mconf.Conflicts.{Apart, mconf_add-Apart}
use rfx.Mconf.Values.{mconf_get_uint_size}
use rfx.Mconf.RoundTrip.{
  SizeBack, AvalBack, mconf_set_uint_size-mconf_get_uint_size, mconf_set_aval-mconf_get_aval,
}
use rfx.Mconf.CommandLine.{ini_handler}
use rfx.Mconf.CommandLine.Handler.{set_named, with_options, ini_handler_lem, ini_handler-unknown}
use rfx.Mconf.Help.{describe, endless, word_len, is_ws}
use rfx.Mconf.Help.Column.{Described, describe_lem, describe_endless}

-- An option `-p`, `--port`, named "p" in the file, of a program that counts the calls of its setter.
abbrev port : MetadParam ℕ
port = record {
  opt_short = b'p';
  opt_long = some (codes "port");
  conf_name = some (codes "p");
  set = λ again section value n. some (true, suc n);
  to_string = none;
  is_set = false;
  opt_args = 1;
  comment = some (codes "n|the port to use");
  opt_idx = 0;
}

abbrev empty : Mconf ℕ
empty = mconf_init none []

mconf_add-Apart_example :
    Apart (mconf_add empty [] (port ∷ [])).1.cb
    × ((mconf_add empty [] (port ∷ [])).0 ≡ false
        → (mconf_add empty [] (port ∷ [])).1.cb ≡ empty.cb)
unfolding mconf_init
mconf_add-Apart_example = mconf_add-Apart empty [] (port ∷ []) tt

-- An option may be in conflict with one of its own block.
own_block : (mconf_add empty [] (port ∷ port ∷ [])).0 ≡ true
unfolding mconf_add mconf_init
own_block = refl

sizes_example : SizeBack 12 3145728 7
sizes_example = mconf_set_uint_size-mconf_get_uint_size 12 3145728 7 (omega arith) (omega arith)

-- Three megabytes.
size_text : mconf_get_uint_size 12 3145728 ≡ some (codes "3m")
unfolding mconf_get_uint_size
size_text = refl

numbers_example : AvalBack true 11 4711 0
numbers_example = mconf_set_aval-mconf_get_aval true 11 4711 0 (omega arith) (omega arith)

abbrev net : MconfBlock ℕ
net = record { section = codes "net"; opt = port ∷ [] }

ini_handler_example :
    ini_handler
      (codes "net")
      (codes "p")
      (codes "80")
      ([] ++ with_options net ([] ++ port ∷ []) ∷ [])
      0
    ≡ (set_named (codes "net") (codes "p") (codes "80") port 0 >>= λ r.
        some (r.0, [] ++ with_options net ([] ++ r.1 ∷ []) ∷ [], r.2))
ini_handler_example =
    ini_handler_lem (codes "net") (codes "p") (codes "80") [] [] net [] [] port 0 tt refl tt refl

unknown_example :
    ini_handler (codes "web") (codes "p") (codes "80") (net ∷ []) 0 ≡ some (false, net ∷ [], 0)
unknown_example =
    ini_handler-unknown (codes "web") (codes "p") (codes "80") (net ∷ []) 0
      ((λ e. absurd (cc e)), tt)

describe_example : Described 20 (describe (suc 15) 4 20 (codes "  -p") (codes "the port to use"))
unfolding word_len is_ws
describe_example =
    describe_lem 15 4 20 (codes "  -p") (codes "the port to use") (omega arith) (omega arith)
      (omega arith) (omega arith) (omega arith)

describe_endless_example : describe 100 4 10 (codes "  -p") (codes "connections") ≡ endless
unfolding word_len is_ws
describe_endless_example =
    describe_endless 100 4 10 (codes "  -p") b'c' (codes "onnections") (omega arith) (omega arith)
      (omega arith) refl
