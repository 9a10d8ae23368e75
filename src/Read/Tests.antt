-- ===== src/Read/Tests.antt =====
-- `decodeRead` of tmux/read.go on the output of one command list.
use gotmux.Prelude.{◌++◌, ◌≡◌, ◌≢◌, refl, true, none, some, List, [], ◌∷◌, Bytes, codes, ok, arith}
use gotmux.Prelude.Int.{atoi, digits_value}
use gotmux.Prelude.Numeral.{numeral_value, all_digits, is_digit}
use gotmux.Prelude.Space.{trim_space, skip_spaces}
use gotmux.Wire.Records.{encode_record}
use gotmux.Identity.{valid_identity}
use gotmux.Version.{parse_version, supported_version}
use gotmux.Rows.{ServerInfo, session_object, client_object}
use gotmux.Rows.Decoder.{str, lookup, nonnegative, timestamp, integer, number, not_negative, run}
use gotmux.Rows.Decode.{
  Server, server_info, info_steps, decode_identity, generation_of, is_other_daemon,
}
use gotmux.Read.{Request, decode_read, identity_fields, record_map, display}
use gotmux.Read.Total.{decode_read_total}
use gotmux.Read.Split.{sections_text, maps, later_maps, decode_read-sections}

abbrev server : Server
server = record {
  endpoint = record { socket_path = codes "/tmp/t"; socket_name = []; temp_dir = []; uid = 0 };
  connection = none;
  bound = none;
}

abbrev identity : List Bytes
identity = codes "41" ∷ codes "1700000000" ∷ codes "/tmp/t" ∷ codes "3.6a" ∷ []

abbrev info : ServerInfo
info = record {
  raw = record_map identity_fields identity [];
  identity = record {
    endpoint = server.endpoint;
    reported_socket = codes "/tmp/t";
    pid = 41;
    started = some 1700000000;
    generation = 0;
  };
  version = record {
    raw = codes "3.6a";
    major = 3;
    minor = 6;
    patch = codes "a";
    suffix = [];
    recognized = true;
  };
}

abbrev sessions : Request
sessions = record {
  kind = session_object;
  fields = codes "session_id" ∷ codes "session_name" ∷ [];
  node = display [];
}

abbrev clients : Request
clients = record { kind = client_object; fields = codes "client_name" ∷ []; node = display [] }

abbrev rows : List (List Bytes)
rows = (codes "$1" ∷ codes "work" ∷ []) ∷ (codes "$2" ∷ [] ∷ []) ∷ []

info-ok : server_info server (record_map identity_fields identity []) ≡ ok info
unfolding server_info info_steps decode_identity run nonnegative timestamp integer number
    not_negative str lookup record_map atoi digits_value all_digits is_digit numeral_value
    valid_identity is_other_daemon generation_of parse_version trim_space skip_spaces
    supported_version
info-ok = refl

decode_read-sections_example :
    (decode_read server (some info) sessions (clients ∷ []) (sections_text rows ([] ∷ []))
      ≡ some (ok (info, maps sessions rows ∷ later_maps (clients ∷ []) ([] ∷ []))))
    × (decode_read server none sessions
          (clients ∷ [])
          (encode_record identity ++ sections_text rows ([] ∷ []))
        ≡ some (ok (info, maps sessions rows ∷ later_maps (clients ∷ []) ([] ∷ []))))
decode_read-sections_example =
    decode_read-sections server info sessions (clients ∷ []) rows ([] ∷ []) identity
      (
        (
          omega arith,
          (
            (refl, omega arith, (omega arith, (omega arith, tt))),
            ((refl, omega arith, (omega arith, (omega arith, tt))), tt),
          ),
        ),
        (omega arith, tt),
      )
      (refl, omega arith, (omega arith, (omega arith, (omega arith, (omega arith, tt))))) info-ok

decode_read_total_example : decode_read server none sessions (clients ∷ []) (codes "TGO1:9") ≢ none
decode_read_total_example = decode_read_total server none sessions (clients ∷ []) (codes "TGO1:9")
