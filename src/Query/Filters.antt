-- ===== src/Query/Filters.antt =====
-- core/search.py, `SearchFilter` and the filters that are built in.
use quick_find.Prelude.{ℕ, Bool, true, false, List, [], ◌∷◌}
use quick_find.Text.{Text, codes}
use quick_find.Dict.{Dict, text_key}

pub record SearchFilter : Type 0 where
  pub name : Text
  pub extensions : List Text
  pub min_size : ℕ
  pub max_size : ℕ
  pub files_only : Bool
  pub folders_only : Bool
  pub macro : Text
  pub exclude_paths : List Text

abbrev pub audio : SearchFilter
audio = record {
  name = codes "Audio";
  extensions =
      codes "aac"
      ∷ codes "ac3"
      ∷ codes "adt"
      ∷ codes "adts"
      ∷ codes "aif"
      ∷ codes "aifc"
      ∷ codes "aiff"
      ∷ codes "amr"
      ∷ codes "ape"
      ∷ codes "au"
      ∷ codes "cda"
      ∷ codes "dts"
      ∷ codes "ec3"
      ∷ codes "fla"
      ∷ codes "flac"
      ∷ codes "lpcm"
      ∷ codes "m1a"
      ∷ codes "m2a"
      ∷ codes "m3u"
      ∷ codes "m3u8"
      ∷ codes "m4a"
      ∷ codes "m4b"
      ∷ codes "m4p"
      ∷ codes "mid"
      ∷ codes "midi"
      ∷ codes "mka"
      ∷ codes "mp2"
      ∷ codes "mp3"
      ∷ codes "mpa"
      ∷ codes "mpc"
      ∷ codes "oga"
      ∷ codes "ogg"
      ∷ codes "opus"
      ∷ codes "ra"
      ∷ codes "rmi"
      ∷ codes "snd"
      ∷ codes "wav"
      ∷ codes "wax"
      ∷ codes "weba"
      ∷ codes "wma"
      ∷ [];
  min_size = 0;
  max_size = 0;
  files_only = true;
  folders_only = false;
  macro = [];
  exclude_paths = [];
}

abbrev pub video : SearchFilter
video = record {
  name = codes "Video";
  extensions =
      codes "3g2"
      ∷ codes "3gp"
      ∷ codes "3gp2"
      ∷ codes "3gpp"
      ∷ codes "amv"
      ∷ codes "asf"
      ∷ codes "asx"
      ∷ codes "avi"
      ∷ codes "bdmv"
      ∷ codes "bik"
      ∷ codes "d2v"
      ∷ codes "divx"
      ∷ codes "drc"
      ∷ codes "dsa"
      ∷ codes "dsm"
      ∷ codes "dss"
      ∷ codes "dsv"
      ∷ codes "evo"
      ∷ codes "f4v"
      ∷ codes "flc"
      ∷ codes "fli"
      ∷ codes "flic"
      ∷ codes "flv"
      ∷ codes "hdmov"
      ∷ codes "ifo"
      ∷ codes "ivf"
      ∷ codes "m1v"
      ∷ codes "m2p"
      ∷ codes "m2t"
      ∷ codes "m2ts"
      ∷ codes "m2v"
      ∷ codes "m4v"
      ∷ codes "mkv"
      ∷ codes "mod"
      ∷ codes "mov"
      ∷ codes "mp2v"
      ∷ codes "mp4"
      ∷ codes "mp4v"
      ∷ codes "mpe"
      ∷ codes "mpeg"
      ∷ codes "mpg"
      ∷ codes "mpls"
      ∷ codes "mpv2"
      ∷ codes "mpv4"
      ∷ codes "mts"
      ∷ codes "ogm"
      ∷ codes "ogv"
      ∷ codes "ogx"
      ∷ codes "pss"
      ∷ codes "pva"
      ∷ codes "qt"
      ∷ codes "ram"
      ∷ codes "ratdvd"
      ∷ codes "rm"
      ∷ codes "rmm"
      ∷ codes "rmvb"
      ∷ codes "roq"
      ∷ codes "rpm"
      ∷ codes "smil"
      ∷ codes "smk"
      ∷ codes "swf"
      ∷ codes "tod"
      ∷ codes "tp"
      ∷ codes "tpr"
      ∷ codes "tts"
      ∷ codes "uvu"
      ∷ codes "vob"
      ∷ codes "vp6"
      ∷ codes "webm"
      ∷ codes "wm"
      ∷ codes "wmp"
      ∷ codes "wmv"
      ∷ codes "wmx"
      ∷ codes "wvx"
      ∷ [];
  min_size = 0;
  max_size = 0;
  files_only = true;
  folders_only = false;
  macro = [];
  exclude_paths = [];
}

abbrev pub image : SearchFilter
image = record {
  name = codes "Image";
  extensions =
      codes "ani"
      ∷ codes "apng"
      ∷ codes "avif"
      ∷ codes "avifs"
      ∷ codes "bmp"
      ∷ codes "bpg"
      ∷ codes "cur"
      ∷ codes "dds"
      ∷ codes "gif"
      ∷ codes "heic"
      ∷ codes "heics"
      ∷ codes "heif"
      ∷ codes "heifs"
      ∷ codes "hif"
      ∷ codes "ico"
      ∷ codes "jfi"
      ∷ codes "jfif"
      ∷ codes "jif"
      ∷ codes "jpe"
      ∷ codes "jpeg"
      ∷ codes "jpg"
      ∷ codes "jxl"
      ∷ codes "jxr"
      ∷ codes "pcx"
      ∷ codes "png"
      ∷ codes "psb"
      ∷ codes "psd"
      ∷ codes "svg"
      ∷ codes "tga"
      ∷ codes "tif"
      ∷ codes "tiff"
      ∷ codes "wdp"
      ∷ codes "webp"
      ∷ codes "wmf"
      ∷ [];
  min_size = 0;
  max_size = 0;
  files_only = true;
  folders_only = false;
  macro = [];
  exclude_paths = [];
}

abbrev pub document : SearchFilter
document = record {
  name = codes "Document";
  extensions =
      codes "asm"
      ∷ codes "c"
      ∷ codes "cc"
      ∷ codes "chm"
      ∷ codes "cpp"
      ∷ codes "cs"
      ∷ codes "css"
      ∷ codes "csv"
      ∷ codes "cxx"
      ∷ codes "doc"
      ∷ codes "docm"
      ∷ codes "docx"
      ∷ codes "dot"
      ∷ codes "dotm"
      ∷ codes "dotx"
      ∷ codes "efu"
      ∷ codes "epub"
      ∷ codes "h"
      ∷ codes "hpp"
      ∷ codes "htm"
      ∷ codes "html"
      ∷ codes "hxx"
      ∷ codes "ini"
      ∷ codes "java"
      ∷ codes "js"
      ∷ codes "json"
      ∷ codes "lua"
      ∷ codes "md"
      ∷ codes "mht"
      ∷ codes "mhtml"
      ∷ codes "mobi"
      ∷ codes "odp"
      ∷ codes "ods"
      ∷ codes "odt"
      ∷ codes "ofd"
      ∷ codes "pdf"
      ∷ codes "php"
      ∷ codes "pl"
      ∷ codes "potm"
      ∷ codes "potx"
      ∷ codes "ppam"
      ∷ codes "pps"
      ∷ codes "ppsm"
      ∷ codes "ppsx"
      ∷ codes "ppt"
      ∷ codes "pptm"
      ∷ codes "pptx"
      ∷ codes "ps1xml"
      ∷ codes "pssc"
      ∷ codes "pub"
      ∷ codes "py"
      ∷ codes "rtf"
      ∷ codes "sldm"
      ∷ codes "sldx"
      ∷ codes "sql"
      ∷ codes "tsv"
      ∷ codes "txt"
      ∷ codes "vb"
      ∷ codes "vsd"
      ∷ codes "wpd"
      ∷ codes "wps"
      ∷ codes "wri"
      ∷ codes "xlam"
      ∷ codes "xls"
      ∷ codes "xlsb"
      ∷ codes "xlsm"
      ∷ codes "xlsx"
      ∷ codes "xltm"
      ∷ codes "xltx"
      ∷ codes "xml"
      ∷ codes "xsl"
      ∷ [];
  min_size = 0;
  max_size = 0;
  files_only = true;
  folders_only = false;
  macro = [];
  exclude_paths = [];
}

abbrev pub executable : SearchFilter
executable = record {
  name = codes "Executable";
  extensions =
      codes "bat"
      ∷ codes "cmd"
      ∷ codes "exe"
      ∷ codes "msi"
      ∷ codes "msp"
      ∷ codes "msu"
      ∷ codes "ps1"
      ∷ codes "scr"
      ∷ codes "vbs"
      ∷ [];
  min_size = 0;
  max_size = 0;
  files_only = true;
  folders_only = false;
  macro = [];
  exclude_paths = [];
}

abbrev pub compressed : SearchFilter
compressed = record {
  name = codes "Compressed";
  extensions = codes "7z" ∷ codes "rar" ∷ codes "zip" ∷ [];
  min_size = 0;
  max_size = 0;
  files_only = true;
  folders_only = false;
  macro = [];
  exclude_paths = [];
}

abbrev pub folder : SearchFilter
folder = record {
  name = codes "Folder";
  extensions = [];
  min_size = 0;
  max_size = 0;
  files_only = false;
  folders_only = true;
  macro = [];
  exclude_paths = [];
}

abbrev pub everything : SearchFilter
everything = record {
  name = codes "Everything";
  extensions = [];
  min_size = 0;
  max_size = 0;
  files_only = false;
  folders_only = false;
  macro = [];
  exclude_paths = codes "$Recycle.Bin" ∷ [];
}

-- BUILTIN_FILTERS.
abbrev pub builtin_filters : Dict Text SearchFilter
builtin_filters =
    (codes "Everything", everything)
    ∷ (codes "Audio", audio)
    ∷ (codes "Compressed", compressed)
    ∷ (codes "Document", document)
    ∷ (codes "Executable", executable)
    ∷ (codes "Folder", folder)
    ∷ (codes "Image", image)
    ∷ (codes "Video", video)
    ∷ []
