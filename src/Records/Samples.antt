-- ===== src/Records/Samples.antt =====
-- Data for the runs of commands: fixed third-party code, a machine, and a store with a note.
use oh_my_document.Prelude.{false, true, [], ◌∷◌, ◌++◌, Text, none, some, codes, Result, ok, err}
use oh_my_document.Records.Json.{string}
use oh_my_document.Records.Id.{Bytes}
use oh_my_document.Records.Crates.{Crates}
use oh_my_document.Records.Commit.{Commit, note_init, init}
use oh_my_document.Records.Store.{Store, Link, default_state}
use oh_my_document.Records.Version.{SourceVersion}
use oh_my_document.Sources.Reference.{file}
use oh_my_document.Records.Session.{Session, World}
use oh_my_document.Records.Session.Evidence.{Expected}
use oh_my_document.Records.Pipeline.{Env, Gate, Publication, PipelineError}
use oh_my_document.Records.Pipeline.Source.{Reader}

-- 32 and 64 hexadecimal digits.
abbrev pub short : Text
short = codes "00000000000000000000000000000001"

abbrev pub digits : Text
digits = codes "000000000000000000000000000000000000000000000000000000000000000a"

abbrev sixteen : Bytes
sixteen = 1 ∷ 2 ∷ 3 ∷ 4 ∷ 5 ∷ 6 ∷ 7 ∷ 8 ∷ 9 ∷ 10 ∷ 11 ∷ 12 ∷ 13 ∷ 14 ∷ 15 ∷ 16 ∷ []

-- Every digest is the same, and ids are their own names.
instance abbrev pub fixed : Crates
fixed = record {
  is_rfc3339 = λ s. true;
  hex_decode = λ s. some sixteen;
  sha256 = λ s. digits;
  hex_encode = λ s. s;
}

abbrev pub env : Env
env = record {
  quote = λ s. s;
  utf8 = λ s. s;
  fill = λ draw. sixteen;
  timestamp = codes "2026-01-01T00:00:00Z";
  commit_error_text = λ e. codes "commit";
  ref_error_text = λ e. codes "ref";
}

abbrev pub granted : Gate
granted = record { locked = ok tt; authority = ok tt; expected = ok tt }

abbrev pub reader : Reader
reader = record { normalized = λ d. ok d; decode = λ bytes encoding. ok bytes }

abbrev pub note : Commit
note = record {
  id = none;
  salt = codes "0123456789abcdef";
  previous_id = [];
  timestamp = codes "2026-01-01T00:00:00Z";
  schema = codes "omd.commit/3";
  kind = note_init;
  content_ref = codes "empty";
  payload = (codes "target", string (codes "t")) ∷ (codes "text", string (codes "x")) ∷ [];
  range_tips = [];
}

-- The note A, and the link L from it to itself, for which A is pending.
abbrev pub link_of : Text → Link
link_of id = record {
  link_id = id;
  source = codes "note:A";
  target = codes "note:A";
  source_version = codes "A";
  target_version = codes "A";
  created_by = codes "A";
}

abbrev pub noted : Store
noted = record {
  state = record default_state {
    tips = (codes "note:A", codes "A") ∷ [];
    retained = codes "A" ∷ [];
    links = (codes "L", link_of (codes "L")) ∷ [];
    link_pending = (codes "L", codes "A" ∷ []) ∷ [];
  };
  commits = (codes "A", note) ∷ [];
}

abbrev pub empty_store : Store
empty_store = record { state = default_state; commits = [] }

-- A file whose one version is that of the file as it is.
abbrev pub version : SourceVersion
version = record {
  format = codes "omd.version/2";
  id = short;
  byte_count = 1;
  sha256 = digits;
  acquisition = file (codes "root") (codes "a.md");
  recovery = file (codes "root") (codes "a.md");
  encoding = none;
  content_file = some (codes "content/" ++ digits);
}

abbrev pub filed : Store
filed = record {
  state = record default_state {
    tips = (codes "file:A", codes "A") ∷ [];
    locations = (codes "file:A", codes "a.md") ∷ [];
    retained = codes "A" ∷ [];
  };
  commits =
      (
        codes "A",
        record note {
          kind = init;
          content_ref = short;
          payload = (codes "path", string (codes "a.md")) ∷ [];
        },
      )
      ∷ [];
}

abbrev pub session : Session
session = record {
  stored = filed;
  versions = (short, version) ∷ [];
  bindings = [];
  registered = [];
  content = (codes "content/" ++ digits, 7 ∷ []) ∷ [];
  project_id = codes "p";
  context_instance = codes "i";
  mapping_revision = none;
  project_root = some (codes "/p");
  metadata_root = codes "/m";
  context_alias = none;
  recognized_remote_urls = [];
  config_cwd = some (codes "/c");
  observed_versions = [];
  observed_bytes = [];
  validated_expected = none;
  initialized_here = false;
}

abbrev pub world : World
world = record {
  locked = ok tt;
  mappings = ok [];
  authorities = ok [];
  canonical = λ path. ok path;
  exists = λ path. true;
  read_file = λ d. ok (7 ∷ []);
  git_bytes = λ d. none;
  remote_url = λ root name. ok [];
  registration_text = λ r. r.alias;
}

abbrev pub evidence : Expected
evidence = record {
  format = codes "omd.expected/4";
  instance_ = codes "i";
  mapping_revision = none;
  project_id = codes "p";
  store_id = [];
  publication = 0;
  tips = (codes "file:A", codes "A") ∷ [];
  basis_versions = (codes "file:A", short) ∷ [];
  source_versions = (codes "file:A", short) ∷ [];
  acquisition_versions = (codes "file:A", short) ∷ [];
  source_hashes = (codes "file:A", digits) ∷ [];
  peer_registrations = [];
  peers = [];
  registrations = [];
}

-- What a command that goes through hands to `publish`.
abbrev nothing : Publication
nothing = record {
  record_ = note;
  commit_id = [];
  version = none;
  content = none;
  new_state = default_state;
  answer = [];
}

abbrev pub outcome : Result PipelineError Publication → Publication
outcome (ok p) = p
outcome (err e) = nothing
