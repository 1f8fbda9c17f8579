-- ===== src/Tests/Parsing.antt =====
-- The theorems on the syntax of addresses and on the option catalogue at concrete inputs.
use socat.Parse.Escapes.Grammar.{expand_slash_escapes-Expands, Expands}
use socat.OptionMeta.Spellings.{lookup_option-names}
use socat.Parse.Error.{ok}
use socat.Parse.Address.Sound.{parse_channel-ChannelOf, ChannelOf}
use socat.Parse.Print.{is_word_byte}
use socat.Prelude.Text.{codes}
use socat.Parse.Trim.{
  space3, space2, ascii_space, odd_backslashes, escaped_byte, last_space_size, space_size,
  trim_end_loop, trim_start_loop, trim_unescaped_space,
}
use socat.Parse.Trim.Exact.{trim_unescaped_space-Trimmed, Trimmed}
use socat.Parse.Escapes.{expand_slash_escapes}
use socat.Parse.Scanner.{step_group, step, at_top, new_spec_scanner, find_top}
use socat.Parse.Scanner.FirstTop.{find_top-FirstTop, FirstTop}
use socat.Parse.Print.Values.{unix, read_setting}
use socat.Parse.Address.{parse_channel, parse_spec}
use socat.Parse.Path.{socket_data_index, path_param_type, is_letter}
use socat.Parse.Print.Channel.{
  parse_channel-print, parse_channel-print_dual, parse_spec-print, read, IsWritten, print, Written,
}
use socat.OptionMeta.{
  names, claim_names, validate_catalog, parse_aliases, parser_alias_map, parser_canonical,
  lookup_option, OptionDef,
}
use socat.Prelude.{
  arith, refl, ◌↔◌, none, some, false, ◌+◌, ◌-◌, true, ◌≡◌, [], ◌&&◌, ◌++◌, ◌∷◌, leb, List, Bytes,
  if◌then◌else◌, ℕ,
}
use mathlib.Core.List.{map}

abbrev upper_byte : ℕ → ℕ
upper_byte c = if leb b'a' c && leb c b'z' then c - 32 else c

abbrev lower_byte : ℕ → ℕ
lower_byte c = if leb b'A' c && leb c b'Z' then c + 32 else c

abbrev upper_ascii : Bytes → Bytes
upper_ascii s = map upper_byte s

abbrev lower_ascii : Bytes → Bytes
lower_ascii s = map lower_byte s

abbrev as_it_is : Bytes → Bytes
as_it_is s = s

abbrev reuse_address : OptionDef
reuse_address = record {
  canonical = codes "reuseaddr";
  aliases = codes "so-reuseaddr" ∷ [];
  parser_aliases = [];
  public_aliases = [];
  path_value = false;
  isolation = false;
  kind = 1;
}

abbrev bind_address : OptionDef
bind_address = record {
  canonical = codes "bind";
  aliases = [];
  parser_aliases = codes "bindto" ∷ [];
  public_aliases = [];
  path_value = false;
  isolation = false;
  kind = 2;
}

abbrev two_options : List OptionDef
two_options = reuse_address ∷ bind_address ∷ []

-- tcp:a"b:,c,bindto=!
abbrev tcp_address : Written
tcp_address = record {
  first = b't';
  second = b'c';
  others = codes "p";
  params = (b'a' ∷ b'"' ∷ b'b' ∷ []) ∷ (b':' ∷ b',' ∷ []) ∷ [];
  settings = (codes "bindto", codes "!") ∷ [];
}

abbrev stdio_address : Written
stdio_address = record {
  first = b's';
  second = b't';
  others = codes "dio";
  params = [];
  settings = [];
}

tcp-IsWritten : IsWritten upper_ascii lower_ascii as_it_is two_options tcp_address
unfolding is_letter is_word_byte path_param_type socket_data_index
tcp-IsWritten = record {
  letter = refl;
  word = (refl, (refl, (refl, tt)));
  plain = ((omega arith, (omega arith, (omega arith, tt))), ((omega arith, (omega arith, tt)), tt));
  named = (((refl, (refl, (refl, (refl, (refl, (refl, tt)))))), (refl, (omega arith, tt))), tt);
  no_path = refl;
  no_data = refl;
}

stdio-IsWritten : IsWritten upper_ascii lower_ascii as_it_is two_options stdio_address
unfolding is_letter is_word_byte path_param_type socket_data_index
stdio-IsWritten = record {
  letter = refl;
  word = (refl, (refl, (refl, (refl, (refl, tt)))));
  plain = tt;
  named = tt;
  no_path = refl;
  no_data = refl;
}

parse_spec-print_example :
    parse_spec (unix upper_ascii lower_ascii as_it_is two_options) (print tcp_address)
    ≡ ok (read upper_ascii lower_ascii as_it_is two_options tcp_address)
parse_spec-print_example =
    parse_spec-print upper_ascii lower_ascii as_it_is two_options tcp_address tcp-IsWritten

-- the option of the address is known by its canonical name
tcp_options :
    (read upper_ascii lower_ascii as_it_is two_options tcp_address).options
    ≡ record { name = codes "bind"; spelling = codes "bindto"; value = codes "!"; has = true } ∷ []
unfolding read_setting parser_canonical parser_alias_map parse_aliases
tcp_options = refl

parse_channel-print_dual_example :
    (let s = print stdio_address ++ b'!' ∷ b'!' ∷ print tcp_address in
      let env = unix upper_ascii lower_ascii as_it_is two_options in
      parse_channel env s
      ≡ ok record {
        single = none;
        dual = some record {
          left = read upper_ascii lower_ascii as_it_is two_options stdio_address;
          right = read upper_ascii lower_ascii as_it_is two_options tcp_address;
          raw = s;
        };
        raw = s;
      })
parse_channel-print_dual_example =
    parse_channel-print_dual upper_ascii lower_ascii as_it_is two_options stdio_address tcp_address
      stdio-IsWritten tcp-IsWritten

parse_channel-ChannelOf_example :
    (let s = print stdio_address in
      let env = unix upper_ascii lower_ascii as_it_is two_options in
      ChannelOf env (trim_unescaped_space s) record {
        single = some (read upper_ascii lower_ascii as_it_is two_options stdio_address);
        dual = none;
        raw = s;
      })
parse_channel-ChannelOf_example =
    parse_channel-ChannelOf (unix upper_ascii lower_ascii as_it_is two_options)
      (print stdio_address)
      record {
        single = some (read upper_ascii lower_ascii as_it_is two_options stdio_address);
        dual = none;
        raw = print stdio_address;
      }
      (parse_channel-print upper_ascii lower_ascii as_it_is two_options stdio_address
        stdio-IsWritten)

find_top-FirstTop_example :
    FirstTop b',' (codes "a(,)b,c") (find_top b',' (new_spec_scanner true) (codes "a(,)b,c"))
find_top-FirstTop_example = find_top-FirstTop b',' (codes "a(,)b,c") refl

-- the comma in parentheses is passed over
hidden_comma : find_top b',' (new_spec_scanner true) (codes "a(,)b,c") ≡ some 5
unfolding find_top at_top step step_group
hidden_comma = refl

expand_slash_escapes-Expands_example :
    (expand_slash_escapes (codes "a\\x41\\n") ≡ ok (b'a' ∷ b'A' ∷ 10 ∷ []))
    ↔ Expands (codes "a\\x41\\n") (b'a' ∷ b'A' ∷ 10 ∷ [])
expand_slash_escapes-Expands_example =
    expand_slash_escapes-Expands (codes "a\\x41\\n") (b'a' ∷ b'A' ∷ 10 ∷ [])

trim_unescaped_space-Trimmed_example :
    Trimmed (codes " a\\  ") (trim_unescaped_space (codes " a\\  "))
trim_unescaped_space-Trimmed_example = trim_unescaped_space-Trimmed (codes " a\\  ")

-- the space behind the backslash stays
escaped_space : trim_unescaped_space (codes " a\\  ") ≡ codes "a\\ "
unfolding trim_unescaped_space trim_start_loop trim_end_loop space_size last_space_size escaped_byte
    odd_backslashes ascii_space space2 space3
escaped_space = refl

lookup_option-names_example :
    lookup_option lower_ascii as_it_is two_options (codes "BindTo") ≡ some bind_address
lookup_option-names_example =
    lookup_option-names lower_ascii as_it_is two_options
      (codes "bindto" ∷ codes "bind" ∷ codes "so-reuseaddr" ∷ codes "reuseaddr" ∷ []) 1 bind_address
      (codes "BindTo") (unfold validate_catalog claim_names names in refl) refl
      (unfold names in refl)
