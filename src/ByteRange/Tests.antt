-- ===== src/ByteRange/Tests.antt =====
-- Range headers at concrete inputs.
use boilerplate_express_ts.Prelude.{
  ℕ, ◌≡◌, refl, none, some, List, [], ◌∷◌, ◌++◌, codes, print, read, text_eq, arith,
}
use boilerplate_express_ts.Prelude.Scan.{cut, split, trim}
use boilerplate_express_ts.ByteRange.{
  int, suffix, range, parse_range_header, resolve_range, format_content_range,
  format_unsatisfied_range,
}
use boilerplate_express_ts.ByteRange.Resolve.{Resolves}
use boilerplate_express_ts.ByteRange.Header.{
  print_specs, parse_range_header-print_specs, parse_range_header-Resolves,
}

abbrev messy : List ℕ
messy = codes " BYTES = 0-499, ,-500,9500- "

messy_read : parse_range_header messy ≡ some (int 0 (some 499) ∷ suffix 500 ∷ int 9500 none ∷ [])
unfolding parse_range_header cut split trim text_eq read
messy_read = refl

reversed_refused : parse_range_header (codes "bytes=5-2") ≡ none
unfolding parse_range_header cut split trim text_eq read
reversed_refused = refl

last_bytes : resolve_range (suffix 500 ∷ []) 10000 ≡ range (record { start = 9500; end = 9999 })
unfolding resolve_range
last_bytes = refl

partial_header :
    format_content_range (record { start = 0; end = 99 }) 1234 ≡ codes "bytes 0-99/1234"
unfolding format_content_range print
partial_header = refl

refused_header : format_unsatisfied_range 12 ≡ codes "bytes */12"
unfolding format_unsatisfied_range print
refused_header = refl

parse_range_header-print_specs_example :
    parse_range_header (codes "bytes=" ++ print_specs (int 0 (some 99)) (suffix 7 ∷ []))
    ≡ some (int 0 (some 99) ∷ suffix 7 ∷ [])
parse_range_header-print_specs_example =
    parse_range_header-print_specs (int 0 (some 99)) (suffix 7 ∷ []) (omega arith)

parse_range_header-Resolves_example :
    Resolves (int 3 (some 8)) 6 (resolve_range (int 3 (some 8) ∷ []) 6)
unfolding parse_range_header cut split trim text_eq read
parse_range_header-Resolves_example =
    parse_range_header-Resolves (codes "bytes=3-8") (int 3 (some 8)) 6 refl
