-- ===== src/HeartBeat/Main.antt =====
-- The configuration, the signals and main of HeartBeat.cpp, built without DEBUG. What the class
-- pasCConfig reads is an argument; the names of its settings are constructors. The socket calls of
-- the two listeners and the rounds are arguments as in Server and Client.
use cpp_study.Base.{ℕ, List, [], Option, none, some, if◌then◌else◌, length}
use cpp_study.Base.Int.{ℤ, pos, negsuc, pos_part, eqb_ℤ}
use cpp_study.HeartBeat.Socket.{Answers}
use cpp_study.HeartBeat.Server.{Listening, exec_server}
use cpp_study.HeartBeat.Client.{Config, Watch, Action, Round, first_watch, run_client}

pub data Setting : Type 0 where
  log_level : Setting
  b_log : Setting
  log_file_len : Setting
  log_index : Setting
  log_w_type : Setting
  log_dir : Setting
  cs_flag_name : Setting
  sleep_sec_name : Setting
  retry_times_name : Setting
  server_ip1 : Setting
  server_port1 : Setting
  server_ip2 : Setting
  server_port2 : Setting
  ethernet : Setting

-- The calls of pasCConfig: what they leave in a variable that has a value before, and the texts of
-- a list, of which they give 16 at most.
pub record ConfigFile : Type 0 where
  pub get_int : Setting → ℤ → ℤ
  pub get_string : Setting → List ℕ → List ℕ
  pub get_array : Setting → List (List ℕ)

pub record ConnectInfo : Type 0 where
  pub server_ip : List ℕ
  pub server_port : ℤ

pub data Signal : Type 0 where
  sigint : Signal
  sigquit : Signal
  sigterm : Signal
  sigtstp : Signal
  sigpipe : Signal
  other_signal : Signal

-- ConfigInfo
pub record ConfigInfo : Type 0 where
  pub cs_flag : ℤ
  pub ethernets : List (List ℕ)
  pub server1 : ConnectInfo
  pub server2 : ConnectInfo
  pub sleep_sec : ℤ
  pub retry_times : ℤ
  pub b_wap_log : ℤ
  pub b_write_type : ℤ
  pub log_type : ℤ
  pub max_log_size : ℤ
  pub max_log_index : ℤ
  pub log_file : List ℕ
  pub level : ℤ
  pub stop : ℤ
  pub msg_type : ℤ
  pub signal : Option Signal

abbrev pub no_server : ConnectInfo
no_server = record { server_ip = []; server_port = pos 0 }

-- The constructor sets every byte to 0.
abbrev pub first_config : ConfigInfo
first_config = record {
  cs_flag = pos 0;
  ethernets = [];
  server1 = no_server;
  server2 = no_server;
  sleep_sec = pos 0;
  retry_times = pos 0;
  b_wap_log = pos 0;
  b_write_type = pos 0;
  log_type = pos 0;
  max_log_size = pos 0;
  max_log_index = pos 0;
  log_file = [];
  level = pos 0;
  stop = pos 0;
  msg_type = pos 0;
  signal = none;
}

abbrev pub get_server : ConfigFile → Setting → Setting → ConnectInfo → ConnectInfo
get_server cfg ip port s = record {
  server_ip = cfg.get_string ip s.server_ip;
  server_port = cfg.get_int port s.server_port;
}

-- getConfigInfo, which returns 0 in every case. syn_global_config is given pointers into the
-- configuration, so that what it makes of it is an argument.
unfoldable pub get_config_info :
    ConfigFile → (ConfigInfo → ConfigInfo) → ℤ → ConfigInfo → ConfigInfo
get_config_info cfg syn_global_config pid c =
    let logged : ConfigInfo = record c {
      log_type = negsuc 0;
      level = cfg.get_int log_level c.level;
      b_wap_log = cfg.get_int b_log c.b_wap_log;
      max_log_size = cfg.get_int log_file_len c.max_log_size;
      max_log_index = cfg.get_int log_index c.max_log_index;
      b_write_type = cfg.get_int log_w_type c.b_write_type;
      log_file = cfg.get_string log_dir c.log_file;
      stop = pos 0;
      msg_type = pid;
    } in
    let synced = syn_global_config logged in
    record synced {
      cs_flag = cfg.get_int cs_flag_name synced.cs_flag;
      sleep_sec = cfg.get_int sleep_sec_name synced.sleep_sec;
      retry_times = cfg.get_int retry_times_name synced.retry_times;
      server1 = get_server cfg server_ip1 server_port1 synced.server1;
      server2 = get_server cfg server_ip2 server_port2 synced.server2;
      ethernets = cfg.get_array ethernet;
    }

-- iSignal_handler
unfoldable pub signal_handler : Signal → ConfigInfo → ConfigInfo
signal_handler sigint c = record c { signal = some sigint }
signal_handler sigquit c = record c { signal = some sigquit }
signal_handler sigterm c = record c { signal = some sigterm }
signal_handler sigtstp c = record c { signal = some sigtstp }
signal_handler sigpipe c = record c { signal = some sigpipe }
signal_handler other_signal c = c

-- Where the program is: it has returned -1, or it serves or watches on.
pub data Progress : Type 0 where
  failed : Progress
  serving : List ℤ → Progress
  watching : Watch → List Action → Progress

unfoldable pub run_as_server :
    Listening → Listening → List (Option Answers × Option Answers) → Progress
unfolding exec_server
run_as_server l m rounds =
    let (listeners, fds) = exec_server l m rounds [] in
    elim listeners [ none ↦ failed | some pair ↦ serving fds ]

-- What RunAsClient reads of the configuration.
abbrev pub client_config : ConfigInfo → Config
client_config c = record {
  ethernet_number = length c.ethernets;
  max_retries = pos_part c.retry_times;
}

unfoldable pub heartbeat_main :
    ConfigFile
    → (ConfigInfo → ConfigInfo)
    → ℤ
    → Listening
    → Listening
    → List (Option Answers × Option Answers)
    → List Round
    → Progress
unfolding get_config_info run_as_server run_client
heartbeat_main cfg syn_global_config pid l m served watched =
    let c = get_config_info cfg syn_global_config pid first_config in
    let (w, actions) = run_client (client_config c) first_watch watched in
    if eqb_ℤ c.cs_flag (pos 0) then run_as_server l m served else watching w actions
