-- ===== src/Linux/Samples.antt =====
-- A small host and a small process on which the theorems are run.
use ruxeon.Common.{ℕ, true, false, none, some, List, [], ◌∷◌, ◌++◌, length, take, ok, err}
use ruxeon.Memory.{}
use ruxeon.Memory.Samples.{two_blocks}
use ruxeon.Errno.{}
use ruxeon.FdIo
use ruxeon.RootFs
use ruxeon.RootFs.{missing}
use ruxeon.Linux.Os.{Os, not_found}
use ruxeon.Linux.State.{LinuxProcess, System, with_executable}

-- A file is the bytes that are left of it; the host's state is a number that nothing reads.
abbrev pub some_files : FdIo.Host (List ℕ) ℕ
some_files = record {
  stdin_ready = λ w. (ok true, w);
  stdin_read = λ n w. (ok [], w);
  stdout_write = λ bytes w. (ok tt, w);
  stderr_write = λ bytes w. (ok tt, w);
  file_read = λ f n w. (ok (take n f), w);
  file_write = λ f bytes w. (ok (length bytes), w);
  nanos = λ w. w;
}

abbrev pub some_root : RootFs.Host
some_root = record {
  entry = λ path. missing;
  has_prefix = λ path. false;
  is_absolute = λ path. false;
  under_root = λ path. none;
  under_parent = λ path. none;
  is_root_name = λ name. false;
}

abbrev pub some_os : Os (List ℕ) ℕ
some_os = record {
  files = some_files;
  try_clone = λ w f. ok f;
  root_view = λ root w. some_root;
  has_prefix = λ path. false;
  push = λ path name. path ++ 47 ∷ name;
  is_utf8 = λ bytes. true;
  is_dir = λ path w. true;
  exists = λ path w. true;
  create_dir = λ path w. (ok tt, w);
  remove_dir = λ path w. (ok tt, w);
  remove_file = λ path w. (ok tt, w);
  open_file = λ options path w. (ok path, w);
  stream_position = λ f w. (ok 0, w);
  seek = λ f to w. (ok tt, w);
  read_dir = λ path w. ok [];
  read_link = λ path w. err not_found;
  metadata = λ path w. err not_found;
  file_metadata = λ f w. err not_found;
  hash = λ metadata path. 7;
  now = λ w. some (w, 0);
  sleep = λ duration w. w;
  terminal_size = λ w. none;
  set_raw_mode = λ raw w. (ok tt, w);
}

abbrev pub some_process : LinuxProcess (List ℕ)
some_process = with_executable none none (97 ∷ [])

abbrev pub some_system : System (List ℕ) ℕ
some_system = record {
  process = some_process;
  memory = two_blocks;
  buffers = [];
  world = 5;
  processes = none;
}
